-- ===== src/MessageLog/Authors.antt =====
-- Embeds in several messages, lists without repetitions, and the authors that were looked up.
use greek_bot.Prelude.{
  ◌⊎◌, inl, inr, some_inj, ℕ, ◌≡◌, ◌≤◌, Bool, true, false, ◌||◌, List, [], ◌∷◌, ◌++◌, none, some,
  if◌then◌else◌, contains, ◌==◌, length, refl, arith, ap, sym, ◌∙◌, inr, inl, Option,
}
use mathlib.Core.List.{append_assoc}
use greek_bot.Prelude.Table.{find}
use greek_bot.MessageLog.Reports.{DeletionEmbed}

-- All embeds of several messages.
abbrev pub joined : List (List DeletionEmbed) → List DeletionEmbed
joined [] = []
joined (m ∷ ms) = m ++ joined ms

pub joined-append : (ms ns : List (List DeletionEmbed)) → joined (ms ++ ns) ≡ joined ms ++ joined ns
joined-append [] ns = refl
joined-append (m ∷ ms) ns =
    ap (λ l. m ++ l) (joined-append ms ns) ∙ sym (append_assoc m (joined ms) (joined ns))

abbrev pub IsMessage : List DeletionEmbed → Type 0
IsMessage m = (1 ≤ length m) × (length m ≤ 10)

unfoldable pub IsDistinct : List ℕ → Type 0
IsDistinct [] = Unit
IsDistinct (x ∷ xs) = (contains xs x ≡ false) × IsDistinct xs

pub contains-add :
    (xs : List ℕ) (a b : ℕ) → contains (xs ++ (a ∷ [])) b ≡ (contains xs b || (a == b))
contains-add [] a b = ground arith
contains-add (x ∷ xs) a b = ground (arith, contains-add xs a b)

pub IsDistinct-add :
    (xs : List ℕ) (a : ℕ) → IsDistinct xs → contains xs a ≡ false → IsDistinct (xs ++ (a ∷ []))
unfolding IsDistinct
IsDistinct-add [] a v new = (refl, tt)
IsDistinct-add (x ∷ xs) a (h, v) new =
    (ground (arith, contains-add xs a x, h, new), IsDistinct-add xs a v (ground (arith, new)))

pub find-add :
    (xs : List (ℕ × Bool)) (u a : ℕ) (b : Bool)
    → find a (xs ++ ((u, b) ∷ []))
      ≡ elim (find a xs) [ some v ↦ some v | none ↦ if u == a then some b else none ]
unfolding find
find-add [] u a b = refl
find-add ((j, v) ∷ xs) u a b = ground (arith, find-add xs u a b)

-- What is found after one more author, and what is not.
pub added_missing :
    (o : Option Bool) (same b : Bool)
    → elim o [ some v ↦ some v | none ↦ if same then some b else none ] ≡ none
    → (o ≡ none) × (same ≡ false)
added_missing none true b h = absurd (ground (arith, h))
added_missing none false b h = (refl, refl)
added_missing (some v) same b h = absurd (ground (arith, h))

pub added_found :
    (o : Option Bool) (same b c : Bool)
    → elim o [ some v ↦ some v | none ↦ if same then some b else none ] ≡ some c
    → (o ≡ some c) ⊎ ((o ≡ none) × (same ≡ true) × (c ≡ b))
added_found none true b c h = inr (refl, refl, sym (some_inj h))
added_found none false b c h = absurd (ground (arith, h))
added_found (some v) same b c h = inl h
