-- ===== src/Prelude/Table.antt =====
-- A database table with an integer primary key: each row is its key and its other columns.
use Prim.Native.Nat.{ℕ}
use mathlib.Core.Path.{ap, sym, ◌∙◌, ◌≡◌, refl}
use mathlib.Core.Bool.{Bool, false, ◌||◌}
use mathlib.Core.Option.{Option, none, some}
use mathlib.Core.List.{List, [], ◌∷◌}
use native.Mathlib.Omega.{arith}
use greek_bot.Prelude.Lists.{contains}
use mathlib.Core.Logic.{inl, inr}
use greek_bot.Prelude.Tests.{==_iff, Bool-cases, ◌==◌, if◌then◌else◌}

module _ {ℓ} {V : Type ℓ} where
  unfoldable pub find : ℕ → List (ℕ × V) → Option V
  find k [] = none
  find k ((j, v) ∷ t) = if j == k then some v else find k t

  -- `INSERT ... ON CONFLICT DO UPDATE`: replaces the row of the key, or adds one.
  unfoldable pub put : ℕ → V → List (ℕ × V) → List (ℕ × V)
  put k v [] = (k, v) ∷ []
  put k v ((j, w) ∷ t) = if j == k then (k, v) ∷ t else (j, w) ∷ put k v t

  -- `DELETE ... WHERE` key `IS` k.
  unfoldable pub erase : ℕ → List (ℕ × V) → List (ℕ × V)
  erase k [] = []
  erase k ((j, w) ∷ t) = let rest = erase k t in if j == k then rest else (j, w) ∷ rest

  -- `DELETE ... WHERE` key `IN` the keys.
  unfoldable pub erase_all : List ℕ → List (ℕ × V) → List (ℕ × V)
  erase_all keys [] = []
  erase_all keys ((j, v) ∷ t) =
      let rest = erase_all keys t in if contains keys j then rest else (j, v) ∷ rest

  -- Whether some row passes a test.
  unfoldable pub any : (ℕ → V → Bool) → List (ℕ × V) → Bool
  any p [] = false
  any p ((j, w) ∷ t) = p j w || any p t

  pub find-put :
      (j k : ℕ) (v : V) (t : List (ℕ × V))
      → find j (put k v t) ≡ (if k == j then some v else find j t)
  unfolding find put
  find-put j k v [] = refl
  find-put j k v ((i, w) ∷ t) = ground (arith, find-put j k v t)

  pub find-erase :
      (j k : ℕ) (t : List (ℕ × V)) → find j (erase k t) ≡ (if k == j then none else find j t)
  unfolding find erase
  find-erase j k [] = ground arith
  find-erase j k ((i, w) ∷ t) = ground (arith, find-erase j k t)

  -- A row that is found passes no test that no row passes.
  pub any-find :
      (p : ℕ → V → Bool) (k : ℕ) (v : V) (t : List (ℕ × V))
      → any p t ≡ false
      → find k t ≡ some v
      → p k v ≡ false
  unfolding any find
  any-find p k v [] h e = ground arith
  any-find p k v ((i, w) ∷ t) h e = ground (arith, any-find p k v t)

  -- The second of two writes to one key counts.
  pub put-put : (k : ℕ) (v w : V) (t : List (ℕ × V)) → put k v (put k w t) ≡ put k v t
  unfolding put
  put-put k v w [] = ground arith
  put-put k v w ((i, u) ∷ t) = ground (arith, put-put k v w t)

  pub any-put :
      (p : ℕ → V → Bool) (k : ℕ) (v : V) (t : List (ℕ × V))
      → any p t ≡ false
      → p k v ≡ false
      → any p (put k v t) ≡ false
  unfolding any put
  any-put p k v [] h e = ground arith
  any-put p k v ((i, w) ∷ t) h e = ground (arith, any-put p k v t)

  pub find-erase_all :
      (keys : List ℕ) (k : ℕ) (t : List (ℕ × V))
      → find k (erase_all keys t) ≡ (if contains keys k then none else find k t)
  unfolding erase_all find
  find-erase_all keys k [] = ground arith
  find-erase_all keys k ((j, v) ∷ t) = elim (Bool-cases (j == k)) [
    | inl same ↦
        rw (same, ap (contains keys) ((==_iff j k).0 same))
          (ground (arith, find-erase_all keys k t, same))
    | inr other ↦ rw other (ground (arith, find-erase_all keys k t))
  ]

  -- Each key once: a primary key.
  unfoldable pub IsKeyed : List (ℕ × V) → Type ℓ
  IsKeyed [] = Unit
  IsKeyed ((k, v) ∷ t) = (find k t ≡ none) × IsKeyed t

  pub put-IsKeyed : (k : ℕ) (w : V) (t : List (ℕ × V)) → IsKeyed t → IsKeyed (put k w t)
  unfolding IsKeyed put find
  put-IsKeyed k w [] v = (refl, tt)
  put-IsKeyed k w ((j, e) ∷ t) (new, v) = elim (Bool-cases (j == k)) [
    | inl same ↦ rw same (ap (λ k. find k t) (sym ((==_iff j k).0 same)) ∙ new, v)
    | inr other ↦ rw other (rw (find-put j k w t) (ground (arith, new)), put-IsKeyed k w t v)
  ]

  pub erase-IsKeyed : (k : ℕ) (t : List (ℕ × V)) → IsKeyed t → IsKeyed (erase k t)
  unfolding IsKeyed erase find
  erase-IsKeyed k [] v = tt
  erase-IsKeyed k ((j, e) ∷ t) (new, v) = elim (Bool-cases (j == k)) [
    | inl same ↦ rw same (erase-IsKeyed k t v)
    | inr other ↦ rw other (rw (find-erase j k t) (ground (arith, new)), erase-IsKeyed k t v)
  ]
