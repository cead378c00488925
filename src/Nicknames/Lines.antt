-- ===== src/Nicknames/Lines.antt =====
-- The report of `process_nicknames` has no long part without a space.
use greek_bot.Prelude.{
  ℕ, zero, suc, ◌+◌, ◌^◌, ◌≤◌, ◌<◌, ◌≡◌, refl, sym, ◌∙◌, true, false, List, [], ◌∷◌, ◌++◌, ◌==◌,
  length, is_empty, All, arith, Bool-cases, inl, inr,
}
use greek_bot.Utils.Digits.{decimal, length-decimal}
use greek_bot.Nicknames.Cutting.{is_spaced}

pub spaced_mono : (k n : ℕ) (s : List ℕ) → is_spaced k s ≡ true → k ≤ n → is_spaced n s ≡ true
unfolding is_spaced
spaced_mono k n [] v le = refl
spaced_mono zero zero (c ∷ s) v le = v
spaced_mono zero (suc n) (c ∷ s) v le = ground (arith, v)
spaced_mono (suc k) zero (c ∷ s) v le = absurd (omega (arith, le))
spaced_mono (suc k) (suc n) (c ∷ s) v le = elim (Bool-cases (c == 32)) [
  | inl space ↦ rw space (sym (rw space refl) ∙ v)
  | inr other ↦ rw other (spaced_mono k n s (sym (rw other refl) ∙ v) (omega (arith, le)))
]

append-filled : (w s : List ℕ) → is_empty s ≡ false → is_empty (w ++ s) ≡ false
append-filled [] s h = h
append-filled (c ∷ w) s h = refl

-- A word in front takes its length of what is allowed.
spaced-append :
    (w s : List ℕ) (k n : ℕ)
    → is_spaced k s ≡ true
    → is_empty s ≡ false
    → length w + k ≤ n
    → n ≤ 100
    → is_spaced n (w ++ s) ≡ true
unfolding is_spaced
spaced-append [] s k n v filled le small = spaced_mono k n s v (omega (arith, le))
spaced-append (c ∷ w) s k zero v filled le small = absurd (omega (arith, le))
spaced-append (c ∷ w) s k (suc n) v filled le small =
    let whole = spaced-append w s k n v filled (omega (arith, le)) (omega (arith, small)) in
    elim (Bool-cases (c == 32)) [
      | inl space ↦
          rw (space, append-filled w s filled)
            (spaced_mono n 100 (w ++ s) whole (omega (arith, small)))
      | inr other ↦ rw other whole
    ]

-- The lines of a section and what follows.
unfoldable pub lines : List ℕ → List ℕ → List ℕ
lines [] rest = rest
lines (id ∷ []) rest = (60 ∷ 64 ∷ decimal id) ++ 62 ∷ 10 ∷ rest
lines (id ∷ id' ∷ ids) rest = (60 ∷ 64 ∷ decimal id) ++ 62 ∷ 32 ∷ lines (id' ∷ ids) rest

lines-filled : (id : ℕ) (ids rest : List ℕ) → is_empty (lines (id ∷ ids) rest) ≡ false
unfolding lines
lines-filled id [] rest = refl
lines-filled id (id' ∷ ids) rest = refl

abbrev pub IsId : ℕ → Type 0
IsId id = id < 2 ^ 64

length-id : (id : ℕ) → IsId id → length (60 ∷ 64 ∷ decimal id) ≤ 22
length-id id small = omega (arith, length-decimal 19 id (omega (arith, small)))

spaced_end : (s : List ℕ) → is_spaced 2 s ≡ true → is_spaced 4 (62 ∷ 10 ∷ s) ≡ true
unfolding is_spaced
spaced_end s h = h

spaced_next :
    (s : List ℕ) → is_empty s ≡ false → is_spaced 100 s ≡ true → is_spaced 4 (62 ∷ 32 ∷ s) ≡ true
unfolding is_spaced
spaced_next s h h' = rw (h, h') refl

lines-spaced :
    (id : ℕ) (ids rest : List ℕ)
    → All IsId (id ∷ ids)
    → is_spaced 2 rest ≡ true
    → is_spaced 27 (lines (id ∷ ids) rest) ≡ true
unfolding lines
lines-spaced id [] rest (small, _) v =
    spaced-append (60 ∷ 64 ∷ decimal id) (62 ∷ 10 ∷ rest) 4 27 (spaced_end rest v) refl
      (omega (arith, length-id id small)) (omega arith)
lines-spaced id (id' ∷ ids) rest (small, all) v =
    spaced-append (60 ∷ 64 ∷ decimal id) (62 ∷ 32 ∷ lines (id' ∷ ids) rest) 4 27
      (spaced_next (lines (id' ∷ ids) rest) (lines-filled id' ids rest) (
        spaced_mono 27 100 (lines (id' ∷ ids) rest) (lines-spaced id' ids rest all v)
          (omega arith)))
      refl (omega (arith, length-id id small)) (omega arith)

-- A section with its title and what follows; `t` is the title after "## ".
unfoldable pub section : List ℕ → List ℕ → List ℕ → List ℕ
section t [] rest = rest
section t (id ∷ ids) rest = (35 ∷ 35 ∷ 32 ∷ t) ++ lines (id ∷ ids) rest

titled :
    (s : List ℕ)
    → is_empty s ≡ false
    → is_spaced 100 s ≡ true
    → is_spaced 2 (35 ∷ 35 ∷ 32 ∷ s) ≡ true
unfolding is_spaced
titled s h h' = rw (h, h') refl

pub empty_spaced : is_spaced 2 [] ≡ true
unfolding is_spaced
empty_spaced = refl

pub section-spaced :
    (t ids rest : List ℕ)
    → length t ≤ 30
    → All IsId ids
    → is_spaced 2 rest ≡ true
    → is_spaced 2 (section t ids rest) ≡ true
unfolding section
section-spaced t [] rest short all v = v
section-spaced t (id ∷ ids) rest short all v =
    titled (t ++ lines (id ∷ ids) rest)
      (append-filled t (lines (id ∷ ids) rest) (lines-filled id ids rest))
      (spaced-append t (lines (id ∷ ids) rest) 27 100 (lines-spaced id ids rest all v)
        (lines-filled id ids rest) (omega (arith, short)) (omega arith))
