-- ===== src/Prelude/Ranks.antt =====
-- Rows in an order, with their numbers: `ORDER BY` and `ROW_NUMBER()` of the queries.
use Prim.Native.Nat.{ℕ, zero, suc, ◌+◌, ◌<◌}
use mathlib.Core.Path.{ap, sym, ◌∙◌, ◌≡◌, refl}
use mathlib.Core.Bool.{Bool, true, false}
use mathlib.Core.Option.{Option, none, some}
use mathlib.Core.List.{List, [], ◌∷◌}
use mathlib.Core.Logic.{inl, inr}
use native.Mathlib.Omega.{arith}
use greek_bot.Prelude.Tests.{Bool-cases, if◌then◌else◌, leb}
use greek_bot.Prelude.Lists.{take}

module _ {A : Type 0} (before : A → A → Bool) where
  unfoldable pub insert_by : A → List A → List A
  insert_by a [] = a ∷ []
  insert_by a (x ∷ xs) = let rest = insert_by a xs in if before a x then a ∷ x ∷ xs else x ∷ rest

  unfoldable pub sort_by : List A → List A
  unfolding insert_by
  sort_by [] = []
  sort_by (x ∷ xs) = insert_by x (sort_by xs)

  abbrev IsAfter : A → List A → Type 0
  IsAfter a [] = Unit
  IsAfter a (x ∷ xs) = before a x ≡ true

  -- Each row comes before the next one.
  unfoldable pub IsOrdered : List A → Type 0
  IsOrdered [] = Unit
  IsOrdered (x ∷ xs) = IsAfter x xs × IsOrdered xs

  module _ (before-total : (a b : A) → before a b ≡ false → before b a ≡ true) where
    insert_by-IsAfter :
        (x a : A) (xs : List A) → IsAfter x xs → before x a ≡ true → IsAfter x (insert_by a xs)
    unfolding insert_by
    insert_by-IsAfter x a [] h first = first
    insert_by-IsAfter x a (y ∷ ys) h first = elim (Bool-cases (before a y)) [
      | inl sooner ↦ rw sooner first
      | inr later ↦ rw later h
    ]

    insert_by-IsOrdered : (a : A) (xs : List A) → IsOrdered xs → IsOrdered (insert_by a xs)
    unfolding IsOrdered insert_by
    insert_by-IsOrdered a [] h = (tt, tt)
    insert_by-IsOrdered a (x ∷ xs) (after, h) = elim (Bool-cases (before a x)) [
      | inl sooner ↦ rw sooner (sooner, (after, h))
      | inr later ↦
          rw later
            (insert_by-IsAfter x a xs after (before-total a x later), insert_by-IsOrdered a xs h)
    ]

    pub sort_by-IsOrdered : (xs : List A) → IsOrdered (sort_by xs)
    unfolding IsOrdered sort_by
    sort_by-IsOrdered [] = tt
    sort_by-IsOrdered (x ∷ xs) = insert_by-IsOrdered x (sort_by xs) (sort_by-IsOrdered xs)

pub record Ranked (A : Type 0) : Type 0 where
  pub row : A
  pub rank : ℕ

module _ {A : Type 0} where
  unfoldable pub number_from : ℕ → List A → List (Ranked A)
  number_from n [] = []
  number_from n (x ∷ xs) = record { row = x; rank = n } ∷ number_from (suc n) xs

  unfoldable pub find_ranked : (A → Bool) → List (Ranked A) → Option (Ranked A)
  find_ranked test [] = none
  find_ranked test (r ∷ rs) = let rest = find_ranked test rs in if test r.row then some r else rest

  -- The rank, if it is at most n.
  abbrev pub within : ℕ → Option (Ranked A) → Option (Ranked A)
  within n none = none
  within n (some r) = if leb r.rank n then some r else none

  unranked :
      (test : A → Bool) (n k : ℕ) (xs : List A)
      → n < k
      → within n (find_ranked test (number_from k xs)) ≡ none
  unfolding find_ranked number_from
  unranked test n k [] lt = refl
  unranked test n k (x ∷ xs) lt = elim (Bool-cases (test x)) [
    | inl own ↦ rw own (ground (arith, lt))
    | inr other ↦ rw other (unranked test n (suc k) xs (omega (arith, lt)))
  ]

  -- The first places agree with the ranks.
  pub first_places :
      (test : A → Bool) (n k : ℕ) (xs : List A)
      → find_ranked test (take n (number_from (suc k) xs))
        ≡ within (k + n) (find_ranked test (number_from (suc k) xs))
  unfolding find_ranked number_from
  first_places test zero k xs = sym (unranked test (k + 0) (suc k) xs (omega arith))
  first_places test (suc n) k [] = refl
  first_places test (suc n) k (x ∷ xs) = elim (Bool-cases (test x)) [
    | inl own ↦ rw own (ground arith)
    | inr other ↦ rw other (
        first_places test n (suc k) xs
        ∙ ap (λ m. within m (find_ranked test (number_from (suc (suc k)) xs))) (omega arith))
  ]
