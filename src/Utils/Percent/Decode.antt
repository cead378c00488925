-- ===== src/Utils/Percent/Decode.antt =====
-- What percent-encoding means: the decoder, which gets every text back.
use greek_bot.Prelude.{
  ℕ, ◌+◌, ◌*◌, ◌/◌, ◌%◌, ◌<◌, ◌≤◌, ◌≡◌, Bool, true, false, ◌&&◌, List, [], ◌∷◌, ◌==◌, leb,
  if◌then◌else◌, Option, none, some, arith, refl, All, length, Bool-cases, inl, inr, Option-cases,
  ◌⊎◌, ◌-◌, ◌∙◌, ap, some_inj,
}
use greek_bot.Utils.Percent.{is_unreserved, hex, percent_encode}
use greek_bot.Prelude.Bits.{bit_and_f, holds_below, below-holds}

unfoldable pub hex_value : ℕ → Option ℕ
hex_value c =
    if leb 48 c && leb c 57
    then some (c - 48)
    else if leb 65 c && leb c 70
    then some (c - 55)
    else none

abbrev joined : Option ℕ → Option ℕ → Option (List ℕ) → Option (List ℕ)
joined (some a) (some b) (some s) = some ((a * 16 + b) ∷ s)
joined _ _ _ = none

abbrev put_before : ℕ → Option (List ℕ) → Option (List ℕ)
put_before c none = none
put_before c (some s) = some (c ∷ s)

unfoldable pub percent_decode : List ℕ → Option (List ℕ)
percent_decode [] = some []
percent_decode (c ∷ []) = if c == 37 then none else some (c ∷ [])
percent_decode (c ∷ d ∷ []) =
    let rest = percent_decode (d ∷ []) in if c == 37 then none else put_before c rest
percent_decode (c ∷ a ∷ b ∷ s) =
    let rest = percent_decode s in
    let next = percent_decode (a ∷ b ∷ s) in
    if c == 37 then joined (hex_value a) (hex_value b) rest else put_before c next

inverts : ℕ → Bool
inverts i = elim (hex_value (hex i)) [ none ↦ false | some j ↦ j == i ]

all_invert : holds_below inverts 16 ≡ true
unfolding holds_below hex hex_value inverts
all_invert = refl

inverts_sound : (i : ℕ) → inverts i ≡ true → hex_value (hex i) ≡ some i
unfolding inverts
inverts_sound i h = elim (Option-cases (hex_value (hex i))) [
  | inl missing ↦ ground (arith, missing)
  | inr (j, q) ↦ ground (arith, q)
]

hex_value-hex : (i : ℕ) → i < 16 → hex_value (hex i) ≡ some i
hex_value-hex i h = inverts_sound i (below-holds inverts 16 i all_invert h)

plain :
    (c : ℕ) (s r : List ℕ)
    → (c == 37) ≡ false
    → percent_decode s ≡ some r
    → percent_decode (c ∷ s) ≡ some (c ∷ r)
unfolding percent_decode
plain c [] r h q = rw h (ap (λ t. some (c ∷ t)) (some_inj q))
plain c (d ∷ []) r h q = rw h (ap (put_before c) q)
plain c (d ∷ e ∷ s) r h q = rw h (ap (put_before c) q)

escaped :
    (a b : ℕ) (s r : List ℕ)
    → a < 16
    → b < 16
    → percent_decode s ≡ some r
    → percent_decode (37 ∷ hex a ∷ hex b ∷ s) ≡ some ((a * 16 + b) ∷ r)
unfolding percent_decode
escaped a b s r ha hb q = rw (hex_value-hex a ha, hex_value-hex b hb, q) refl

unreserved_ne : (c : ℕ) → is_unreserved c ≡ true → (c == 37) ≡ false
unfolding is_unreserved
unreserved_ne c h = ground arith

-- Decoding what `PercentEncode` writes gives the text back.
percent_decode-encode :
    (str : List ℕ) → All (λ c. c < 256) str → percent_decode (percent_encode str) ≡ some str
unfolding percent_encode
percent_decode-encode [] h = unfold percent_decode in refl
percent_decode-encode (c ∷ str) (hc, h) = elim (Bool-cases (is_unreserved c)) [
  | inl kept ↦
      rw kept
        (plain c (percent_encode str) str (unreserved_ne c kept) (percent_decode-encode str h))
  | inr reserved ↦
      rw (reserved, bit_and_f c)
        (escaped (c / 16) (c % 16) (percent_encode str) str (omega arith) (omega arith)
            (percent_decode-encode str h)
          ∙ ap (λ x. some (x ∷ str)) (omega arith))
]

-- What a URL may hold: unreserved characters, the percent sign and nothing else.
abbrev pub IsSafe : ℕ → Type 0
IsSafe c = (is_unreserved c ≡ true) ⊎ (c ≡ 37)

hex_safe : holds_below (λ i. is_unreserved (hex i)) 16 ≡ true
unfolding holds_below hex is_unreserved
hex_safe = refl

hex-IsSafe : (i : ℕ) → i < 16 → IsSafe (hex i)
hex-IsSafe i h = inl (below-holds (λ i. is_unreserved (hex i)) 16 i hex_safe h)

-- `PercentEncode` writes unreserved characters and percent signs only, at most three for each
-- character, so that its buffer is large enough.
percent_encode-IsSafe :
    (str : List ℕ)
    → All (λ c. c < 256) str
    → All IsSafe (percent_encode str) × (length (percent_encode str) ≤ 3 * length str)
unfolding percent_encode
percent_encode-IsSafe [] h = (tt, omega arith)
percent_encode-IsSafe (c ∷ str) (hc, h) =
    let (safe, short) = percent_encode-IsSafe str h in
    elim (Bool-cases (is_unreserved c)) [
      | inl kept ↦ rw kept ((inl kept, safe), omega arith)
      | inr reserved ↦
          rw (reserved, bit_and_f c)
            (
              (
                inr refl,
                (hex-IsSafe (c / 16) (omega arith), (hex-IsSafe (c % 16) (omega arith), safe)),
              ),
              omega arith,
            )
    ]
