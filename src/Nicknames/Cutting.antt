-- ===== src/Nicknames/Cutting.antt =====
-- Where a text is cut, if no part of it is long without a space.
use greek_bot.Prelude.{
  ℕ, zero, suc, ◌+◌, ◌≤◌, ◌<◌, ◌≡◌, refl, sym, ap, ◌∙◌, Bool, true, false, not, ◌&&◌, List, [], ◌∷◌,
  ◌++◌, Option, none, some, some_inj, ◌==◌, ==_iff, leb, if◌then◌else◌, length, take, drop,
  is_empty, arith, Bool-cases, ◌⊎◌, Option-cases, inl, inr,
}
use greek_bot.Nicknames.Chunks.{or_here, last_space}

-- A space comes within n characters, and then again within 100; a space does not end the text.
unfoldable pub is_spaced : ℕ → List ℕ → Bool
is_spaced n [] = true
is_spaced zero (c ∷ s) = (c == 32) && (not (is_empty s) && is_spaced 100 s)
is_spaced (suc n) (c ∷ s) =
    let rest = is_spaced n s in if c == 32 then not (is_empty s) && is_spaced 100 s else rest

or_here-cases :
    (c i : ℕ) (o : Option ℕ)
    → or_here c o ≡ some i
    → ((o ≡ none) × ((c == 32) ≡ true) × (i ≡ 0)) ⊎ ((j : ℕ) × (o ≡ some j) × (i ≡ suc j))
or_here-cases c i none p = elim (Bool-cases (c == 32)) [
  | inl space ↦ inl (refl, space, sym (some_inj (sym (rw space refl) ∙ p)))
  | inr other ↦ absurd (ground (arith, p, other))
]
or_here-cases c i (some j) p = inr (j, refl, sym (some_inj p))

pub last_space-le : (n i : ℕ) (s : List ℕ) → last_space n s ≡ some i → (i ≤ n) × (i < length s)
unfolding last_space
last_space-le n i [] p = absurd (ground (arith, p))
last_space-le zero i (c ∷ s) p = elim (or_here-cases c i none p) [
  | inl (_, _, z) ↦ (omega (arith, z), omega (arith, z))
  | inr (j, q, _) ↦ absurd (ground (arith, q))
]
last_space-le (suc n) i (c ∷ s) p = elim (or_here-cases c i (last_space n s) p) [
  | inl (_, _, z) ↦ (omega (arith, z), omega (arith, z))
  | inr (j, q, e) ↦
      let (le, lt) = last_space-le n j s q in (omega (arith, le, e), omega (arith, lt, e))
]

some_here : (n c : ℕ) (s : List ℕ) → (c == 32) ≡ true → (j : ℕ) × (last_space n (c ∷ s) ≡ some j)
unfolding last_space
some_here zero c s space = (0, rw space refl)
some_here (suc n) c s space = elim (Option-cases (last_space n s)) [
  | inl q ↦ (0, rw (q, space) refl)
  | inr (j, q) ↦ (suc j, rw q refl)
]

-- With a greater bound there is a space, too.
pub last_space_mono :
    (n k i : ℕ) (s : List ℕ) → last_space n s ≡ some i → n ≤ k → (j : ℕ) × (last_space k s ≡ some j)
unfolding last_space
last_space_mono n k i [] p le = absurd (ground (arith, p))
last_space_mono zero k i (c ∷ s) p le = elim (or_here-cases c i none p) [
  | inl (_, space, _) ↦ some_here k c s space
  | inr (j, q, _) ↦ absurd (ground (arith, q))
]
last_space_mono (suc n) zero i (c ∷ s) p le = absurd (omega (arith, le))
last_space_mono (suc n) (suc k) i (c ∷ s) p le = elim (or_here-cases c i (last_space n s) p) [
  | inl (_, space, _) ↦ some_here (suc k) c s space
  | inr (j, q, _) ↦
      let (j', q') = last_space_mono n k j s q (omega (arith, le)) in (suc j', rw q' refl)
]

none_below : (n k : ℕ) (s : List ℕ) → last_space n s ≡ none → k ≤ n → last_space k s ≡ none
none_below n k s p le = elim (Option-cases (last_space k s)) [
  | inl q ↦ q
  | inr (i, q) ↦ let (j, q') = last_space_mono k n i s q le in absurd (ground (arith, p, q'))
]

-- With a lesser bound it is the same one, as long as the bound allows it.
pub last_space-lower :
    (n k i : ℕ) (s : List ℕ) → last_space n s ≡ some i → i ≤ k → k ≤ n → last_space k s ≡ some i
unfolding last_space
last_space-lower n k i [] p le ge = absurd (ground (arith, p))
last_space-lower zero zero i (c ∷ s) p le ge = p
last_space-lower zero (suc k) i (c ∷ s) p le ge = absurd (omega (arith, ge))
last_space-lower (suc n) zero i (c ∷ s) p le ge = elim (or_here-cases c i (last_space n s) p) [
  | inl (q, _, _) ↦ sym (ap (or_here c) q) ∙ p
  | inr (j, q, e) ↦ absurd (omega (arith, e, le))
]
last_space-lower (suc n) (suc k) i (c ∷ s) p le ge = elim (or_here-cases c i (last_space n s) p) [
  | inl (q, _, _) ↦ ap (or_here c) (none_below n k s q (omega (arith, ge)) ∙ sym q) ∙ p
  | inr (j, q, e) ↦
      ap (or_here c) (last_space-lower n k j s q (omega (arith, e, le)) (omega (arith, ge)) ∙ sym q)
      ∙ p
]

spaced-space :
    (k c : ℕ) (s : List ℕ)
    → (c == 32) ≡ true
    → is_spaced k (c ∷ s) ≡ true
    → (is_spaced 100 s ≡ true) × (is_empty s ≡ false)
unfolding is_spaced
spaced-space zero c s space p = ground (arith, space, p)
spaced-space (suc k) c s space p = ground (arith, space, p)

spaced-other :
    (k c : ℕ) (s : List ℕ)
    → (c == 32) ≡ false
    → is_spaced k (c ∷ s) ≡ true
    → (j : ℕ) × (k ≡ suc j) × (is_spaced j s ≡ true)
unfolding is_spaced
spaced-other zero c s other p = absurd (ground (arith, other, p))
spaced-other (suc k) c s other p = (k, refl, sym (rw other refl) ∙ p)

spaced-tail : (k c : ℕ) (s : List ℕ) → is_spaced k (c ∷ s) ≡ true → (j : ℕ) × (is_spaced j s ≡ true)
spaced-tail k c s p = elim (Bool-cases (c == 32)) [
  | inl space ↦ (100, (spaced-space k c s space p).0)
  | inr other ↦ let (j, _, h) = spaced-other k c s other p in (j, h)
]

-- There is a space at most 100 characters in front of each place.
pub spaced-last_space :
    (k n : ℕ) (s : List ℕ)
    → is_spaced k s ≡ true
    → k ≤ n
    → k ≤ 100
    → n < length s
    → (q : ℕ) × (last_space n s ≡ some q) × (n ≤ q + 100)
unfolding last_space
spaced-last_space k n [] p le small lt = absurd (omega (arith, lt))
spaced-last_space k zero (c ∷ s) p le small lt = elim (Bool-cases (c == 32)) [
  | inl space ↦ (0, rw space refl, omega arith)
  | inr other ↦ let (j, e, _) = spaced-other k c s other p in absurd (omega (arith, e, le))
]
spaced-last_space k (suc n) (c ∷ s) p le small lt = elim (Bool-cases (c == 32)) [
  | inl space ↦ elim (Bool-cases (leb 100 n)) [
    | inl far ↦
        let (q, h, near) =
          spaced-last_space 100 n s (spaced-space k c s space p).0 (ground (arith, far))
            (omega arith) (omega (arith, lt)) in
        (suc q, rw h refl, omega (arith, near))
    | inr close ↦ let (j, h) = some_here (suc n) c s space in (j, h, ground (arith, close))
  ]
  | inr other ↦
      let (j, e, v) = spaced-other k c s other p in
      let (q, h, near) =
        spaced-last_space j n s v (omega (arith, e, le)) (omega (arith, e, small))
          (omega (arith, lt)) in
      (suc q, rw h refl, omega (arith, near))
]

-- What follows the cut is spaced and not empty.
pub spaced-drop :
    (k n q : ℕ) (s : List ℕ)
    → is_spaced k s ≡ true
    → last_space n s ≡ some q
    → (is_spaced 100 (drop (suc q) s) ≡ true) × (is_empty (drop (suc q) s) ≡ false)
unfolding last_space
spaced-drop k n q [] p h = absurd (ground (arith, h))
spaced-drop k zero q (c ∷ s) p h = elim (or_here-cases c q none h) [
  | inl (_, space, z) ↦ rw z (spaced-space k c s space p)
  | inr (j, e, _) ↦ absurd (ground (arith, e))
]
spaced-drop k (suc n) q (c ∷ s) p h = elim (or_here-cases c q (last_space n s) h) [
  | inl (_, space, z) ↦ rw z (spaced-space k c s space p)
  | inr (j, e, z) ↦ let (k', v) = spaced-tail k c s p in rw z (spaced-drop k' n j s v e)
]

pub take-space-drop :
    (n q : ℕ) (s : List ℕ) → last_space n s ≡ some q → take q s ++ 32 ∷ drop (suc q) s ≡ s
unfolding last_space
take-space-drop n q [] h = absurd (ground (arith, h))
take-space-drop zero q (c ∷ s) h = elim (or_here-cases c q none h) [
  | inl (_, space, z) ↦ rw z (ap (λ d. d ∷ s) (sym ((==_iff c 32).0 space)))
  | inr (j, e, _) ↦ absurd (ground (arith, e))
]
take-space-drop (suc n) q (c ∷ s) h = elim (or_here-cases c q (last_space n s) h) [
  | inl (_, space, z) ↦ rw z (ap (λ d. d ∷ s) (sym ((==_iff c 32).0 space)))
  | inr (j, e, z) ↦ rw z (ap (λ t. c ∷ t) (take-space-drop n j s e))
]
