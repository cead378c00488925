-- ===== src/Nicknames/Chunks.antt =====
-- How `process_nicknames` of GreekBot/Nicknames.cpp cuts its report into messages.
use greek_bot.Prelude.{
  ℕ, zero, suc, ◌+◌, ◌-◌, ◌^◌, ◌%◌, List, [], ◌∷◌, Option, none, some, ◌==◌, ltb, if◌then◌else◌,
  length, take, drop,
}
use mathlib.Core.Option

-- `std::string::npos`, the greatest `size_t`.
abbrev pub npos : ℕ
npos = 2 ^ 64 - 1

-- The last space, if the rest has one, and else the character in front of it.
abbrev pub or_here : ℕ → Option ℕ → Option ℕ
or_here c (some i) = some (suc i)
or_here c none = if c == 32 then some 0 else none

-- The last space at a position that is at most n.
unfoldable pub last_space : ℕ → List ℕ → Option ℕ
last_space n [] = none
last_space zero (c ∷ s) = or_here c none
last_space (suc n) (c ∷ s) = or_here c (last_space n s)

-- `content.rfind(' ', n)`.
unfoldable pub rfind_space : ℕ → List ℕ → ℕ
unfolding last_space
rfind_space n s = elim (last_space n s) [ none ↦ npos | some i ↦ i ]

-- `pos - 1`.
unfoldable pub before : ℕ → ℕ
before pos = (pos + npos) % 2 ^ 64

-- The inner loop; `none` is no end within the fuel.
unfoldable pub find_cut : ℕ → List ℕ → ℕ → Option ℕ
unfolding rfind_space before
find_cut zero content pos = none
find_cut (suc fuel) content pos =
    let next = rfind_space (before pos) content in
    let rest = find_cut fuel content next in if ltb 2000 next then rest else some next

-- Where the first message ends, with fuel for each position.
unfoldable pub cut_of : List ℕ → Option ℕ
unfolding find_cut
cut_of content = find_cut (suc (length content)) content 0

-- The messages that are sent.
unfoldable pub send_chunks : ℕ → List ℕ → Option (List (List ℕ))
unfolding cut_of
send_chunks zero content = none
send_chunks (suc fuel) content =
    if ltb 2000 (length content)
    then elim (cut_of content) [
      | none ↦ none
      | some pos ↦
          Option.map (λ ms. take pos content ∷ ms) (send_chunks fuel (drop (suc pos) content))
    ]
    else some (content ∷ [])
