-- ===== src/Infractions/Pressing.antt =====
-- A click on a component that removes infractions removes those that it names, and no others.
use greek_bot.Prelude.{
  split_colon, ℕ, ◌^◌, ◌<◌, ◌≡◌, refl, sym, ◌∙◌, ap, Bool, true, false, not, ◌&&◌, List, [], ◌∷◌,
  ◌++◌, some, ◌==◌, if◌then◌else◌, filterb, All, Bool-cases, inl, inr, arith,
}
use greek_bot.Utils.Digits.{decimal, is_digit, IsDigit, decimal-IsDigit, decimal-cons}
use greek_bot.Interactions.Controls.{
  RemovalControl, remove_one, remove_all, cancel, menu, undo, removal_text,
}
use greek_bot.Infractions.Table.{Infraction, Infractions, delete, delete_all}
use greek_bot.Infractions.Removal.{
  Response, updated, Removal, cancelled, selected, all_of, undone, choosing, parse_removal,
  undo_or_choose,
}

split_colon-digits : (s r : List ℕ) → All IsDigit s → split_colon (s ++ (58 ∷ r)) ≡ some (s, r)
unfolding split_colon
split_colon-digits [] r v = refl
split_colon-digits (c ∷ s) r v = rw (not_colon c v.0) (rw (split_colon-digits s r v.1) refl)
  where
    not_colon : (c : ℕ) → is_digit c ≡ true → (c == 58) ≡ false
    not_colon c digit = ground (arith, digit)

-- What a component asks for.
abbrev pub asked : RemovalControl → Removal
asked (remove_one user) = choosing (decimal user)
asked (remove_all user) = all_of (decimal user)
asked (cancel user) = cancelled (decimal user)
asked (menu user) = selected (decimal user)
asked (undo user time) = undone (decimal user) (decimal time)

digit_first : (c : ℕ) (s : List ℕ) → is_digit c ≡ true → parse_removal (c ∷ s) ≡ choosing (c ∷ s)
unfolding parse_removal
digit_first c s digit =
    rw
      (
        parse_removal,
        other 99 (omega arith),
        other 109 (omega arith),
        other 97 (omega arith),
        other 117 (omega arith),
      )
      refl
  where
    other : (l : ℕ) → 57 < l → (l == c) ≡ false
    other l large = ground (arith, digit, large)

pub parse_removal-removal_text : (c : RemovalControl) → parse_removal (removal_text c) ≡ asked c
unfolding parse_removal removal_text
parse_removal-removal_text (remove_one user) =
    let (c, s, q, digit) = decimal-cons user in
    ap parse_removal q ∙ digit_first c s digit ∙ ap choosing (sym q)
parse_removal-removal_text (remove_all user) = refl
parse_removal-removal_text (cancel user) = refl
parse_removal-removal_text (menu user) = refl
parse_removal-removal_text (undo user time) =
    ap (undo_or_choose (removal_text (undo user time)))
      (split_colon-digits (decimal user) (decimal time) (decimal-IsDigit user))

pub delete-filterb :
    (user time : ℕ) (t : Infractions)
    → delete user time t
      ≡ filterb (λ (r : Infraction). not ((r.user_id == user) && (r.timestamp == time))) t
unfolding delete
delete-filterb user time [] = refl
delete-filterb user time (r ∷ t) =
    elim (Bool-cases ((r.user_id == user) && (r.timestamp == time))) [
      | inl hit ↦ rw hit (delete-filterb user time t)
      | inr miss ↦ rw miss (ap (λ l. r ∷ l) (delete-filterb user time t))
    ]

pub delete_all-filterb :
    (user : ℕ) (t : Infractions)
    → delete_all user t ≡ filterb (λ (r : Infraction). not (r.user_id == user)) t
unfolding delete_all
delete_all-filterb user [] = refl
delete_all-filterb user (r ∷ t) = elim (Bool-cases (r.user_id == user)) [
  | inl hit ↦ rw hit (delete_all-filterb user t)
  | inr miss ↦ rw miss (ap (λ l. r ∷ l) (delete_all-filterb user t))
]

-- The infractions that a click removes, where `choice` is selected in a menu.
abbrev pub removes : RemovalControl → ℕ → Infraction → Bool
removes (remove_one user) choice r = false
removes (remove_all user) choice r = r.user_id == user
removes (cancel user) choice r = false
removes (menu user) choice r = (r.user_id == user) && (r.timestamp == choice)
removes (undo user time) choice r = (r.user_id == user) && (r.timestamp == time)

abbrev pub remaining : RemovalControl → ℕ → Infractions → Infractions
remaining c choice = filterb λ (r : Infraction). not (removes c choice r)

-- Ids are 64-bit numbers and times are at most the greatest signed one.
abbrev pub IsWide : RemovalControl → ℕ → Type 0
IsWide (remove_one user) choice = user < 2 ^ 64
IsWide (remove_all user) choice = user < 2 ^ 64
IsWide (cancel user) choice = Unit
IsWide (menu user) choice = (user < 2 ^ 64) × (choice < 2 ^ 63)
IsWide (undo user time) choice = (user < 2 ^ 64) × (time < 2 ^ 63)

abbrev pub is_updated : Response → Bool
is_updated (updated embed rows) = true
is_updated _ = false

pub keep_all : (t : Infractions) → t ≡ filterb (λ (r : Infraction). true) t
keep_all [] = refl
keep_all (r ∷ t) = ap (λ l. r ∷ l) (keep_all t)

-- A transaction that the message shows and that is committed has its effect, or none at all.
abbrev pub Effect : Bool → Infractions → Infractions → Infractions × Response → Type 0
Effect committed t' t r = r.0 ≡ (if committed && is_updated r.1 then t' else t)
