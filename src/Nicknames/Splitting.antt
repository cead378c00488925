-- ===== src/Nicknames/Splitting.antt =====
-- The messages of a long report.
use greek_bot.Prelude.{
  ℕ, zero, suc, ◌+◌, ◌≤◌, ◌<◌, ◌≡◌, refl, sym, ap, ◌∙◌, true, false, List, [], ◌∷◌, ◌++◌, some, ltb,
  length, length-take, length-drop, take, drop, is_empty, All, arith, Bool-cases, inl, inr,
}
use greek_bot.Nicknames.Chunks.{
  npos, last_space, rfind_space, before, find_cut, cut_of, send_chunks,
}
use greek_bot.Nicknames.Cutting.{
  is_spaced, last_space-le, last_space_mono, last_space-lower, spaced-last_space, spaced-drop,
  take-space-drop,
}

before-suc : (m : ℕ) → m < npos → before (suc m) ≡ m
unfolding before
before-suc m lt = omega (arith, lt)

before-zero : before 0 ≡ npos
unfolding before
before-zero = refl

rfind-some : (n i : ℕ) (s : List ℕ) → last_space n s ≡ some i → rfind_space n s ≡ i
unfolding rfind_space
rfind-some n i s h = rw (rfind_space, h) refl

last_cut :
    (n i q : ℕ) (s : List ℕ)
    → last_space 2000 s ≡ some q
    → last_space n s ≡ some i
    → 2000 ≤ n
    → i ≤ 2000
    → some i ≡ some q
last_cut n i q s h h' far le = sym (last_space-lower n 2000 i s h' le far) ∙ h

before-lt : (i : ℕ) → 2000 < i → i < npos → (2000 ≤ before i) × (before i < i)
before-lt zero far lt = absurd (omega (arith, far))
before-lt (suc m) far lt =
    let same = before-suc m (omega (arith, lt)) in (omega (arith, far, same), omega (arith, same))

-- The loop ends at the last space at a position of at most 2000.
find_cut_ends :
    (fuel pos q : ℕ) (s : List ℕ)
    → last_space 2000 s ≡ some q
    → length s < npos
    → 2000 ≤ before pos
    → ((i : ℕ) → last_space (before pos) s ≡ some i → i < fuel)
    → find_cut fuel s pos ≡ some q
unfolding find_cut
find_cut_ends zero pos q s h small far enough =
    let (i, h') = last_space_mono 2000 (before pos) q s h far in absurd (omega (arith, enough i h'))
find_cut_ends (suc fuel) pos q s h small far enough =
    let (i, h') = last_space_mono 2000 (before pos) q s h far in
    let (_, lt) = last_space-le (before pos) i s h' in
    rw (rfind-some (before pos) i s h') (elim (Bool-cases (ltb 2000 i)) [
      | inl long ↦
          let (far', less) = before-lt i (ground (arith, long)) (omega (arith, lt, small)) in
          rw long (
            find_cut_ends fuel i q s h small far'
              (λ j g. omega (arith, (last_space-le (before i) j s g).0, less, enough i h')))
      | inr short ↦ rw short (last_cut (before pos) i q s h h' far (ground (arith, short)))
    ])

-- The messages put together again by spaces.
unfoldable pub joined : List (List ℕ) → List ℕ
joined [] = []
joined (m ∷ []) = m
joined (m ∷ n ∷ ms) = m ++ 32 ∷ joined (n ∷ ms)

abbrev pub IsSendable : List ℕ → Type 0
IsSendable m = (1 ≤ length m) × (length m ≤ 2000)

joined-cons :
    (m : List ℕ) (ms : List (List ℕ))
    → is_empty (joined ms) ≡ false
    → joined (m ∷ ms) ≡ m ++ 32 ∷ joined ms
unfolding joined
joined-cons m [] h = absurd (ground (arith, h))
joined-cons m (n ∷ ms) h = refl

filled_length : (s : List ℕ) → is_empty s ≡ false → 1 ≤ length s
filled_length [] h = absurd (ground (arith, h))
filled_length (c ∷ s) h = omega arith

cut_of-some :
    (q : ℕ) (s : List ℕ) → last_space 2000 s ≡ some q → length s < npos → cut_of s ≡ some q
unfolding cut_of
cut_of-some q s h small =
    find_cut_ends (suc (length s)) 0 q s h small (omega (arith, before-zero))
      (λ i h'. let (_, lt) = last_space-le (before 0) i s h' in omega (arith, lt))

-- The text as far as the cut.
first-IsSendable :
    (q : ℕ) (s : List ℕ) → last_space 2000 s ≡ some q → 2000 ≤ q + 100 → IsSendable (take q s)
first-IsSendable q s h near =
    let (le, lt) = last_space-le 2000 q s h in
    (omega (arith, length-take q s, near, lt), omega (arith, length-take q s, le))

-- The first message and those of the rest.
first_chunk :
    (fuel q : ℕ) (s : List ℕ) (ms : List (List ℕ))
    → last_space 2000 s ≡ some q
    → 2000 ≤ q + 100
    → length s < npos
    → ltb 2000 (length s) ≡ true
    → is_empty (drop (suc q) s) ≡ false
    → send_chunks fuel (drop (suc q) s) ≡ some ms
    → joined ms ≡ drop (suc q) s
    → All IsSendable ms
    → (ns : List (List ℕ)) × (send_chunks (suc fuel) s ≡ some ns)
      × (joined ns ≡ s)
      × All IsSendable ns
unfolding send_chunks
first_chunk fuel q s ms h near small long filled sent same all = (
  take q s ∷ ms,
  rw (long, cut_of-some q s h small, sent) refl,
  joined-cons (take q s) ms (ap is_empty same ∙ filled)
      ∙ ap (λ t. take q s ++ 32 ∷ t) same
      ∙ take-space-drop 2000 q s h,
  (first-IsSendable q s h near, all),
)

pub send_chunks_lem :
    (fuel : ℕ) (s : List ℕ)
    → length s < fuel
    → is_spaced 100 s ≡ true
    → is_empty s ≡ false
    → length s < npos
    → (ms : List (List ℕ)) × (send_chunks fuel s ≡ some ms) × (joined ms ≡ s) × All IsSendable ms
unfolding send_chunks joined
send_chunks_lem zero s enough v filled small = absurd (omega (arith, enough))
send_chunks_lem (suc fuel) s enough v filled small = elim (Bool-cases (ltb 2000 (length s))) [
  | inr short ↦ (s ∷ [], rw short refl, refl, ((filled_length s filled, ground (arith, short)), tt))
  | inl long ↦
      let over : 2000 < length s = ground (arith, long) in
      let (q, h, near) = spaced-last_space 100 2000 s v (omega arith) (omega arith) over in
      let (v', filled') = spaced-drop 100 2000 q s v h in
      let (ms, sent, same, all) =
        send_chunks_lem fuel (drop (suc q) s) (omega (arith, length-drop (suc q) s, enough, over))
          v' filled' (omega (arith, length-drop (suc q) s, small, over)) in
      first_chunk fuel q s ms h near small long filled' sent same all
]
