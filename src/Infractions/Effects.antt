-- ===== src/Infractions/Effects.antt =====
-- What a click on a component that removes infractions does to the table.
use greek_bot.Prelude.{
  ℕ, ◌≡◌, refl, sym, ◌∙◌, ap, Bool, true, false, ◌&&◌, List, Option, none, some, if◌then◌else◌,
  Bool-cases, inl, inr, ◌>>=◌, Option-cases, if-holds, subst,
}
use greek_bot.Utils.Digits.{decimal}
use greek_bot.Interactions.Controls.{
  RemovalControl, remove_one, remove_all, cancel, menu, undo, removal_text,
}
use greek_bot.Infractions.Table.{Infractions}
use greek_bot.Infractions.Panel.{Row, restore}
use greek_bot.Infractions.Removal.{Answers, Response}
use greek_bot.Infractions.Buttons.{
  process_infractions_remove, carry_out, conclude, cancel_removal, remove_as,
}
use greek_bot.Infractions.Updates.{restored, HasRows, IsShown, shown, carried, shown-IsShown}
use greek_bot.Infractions.Pressing.{
  asked, parse_removal-removal_text, keep_all, remaining, IsWide, is_updated, Effect,
}

shown_effect :
    (t t' : Infractions) (b : Bool) → (if b then t' else t) ≡ (if b && true then t' else t)
shown_effect t t' true = refl
shown_effect t t' false = refl

no_effect : (t t' : Infractions) (b : Bool) → t ≡ (if b && false then t' else t)
no_effect t t' true = refl
no_effect t t' false = refl

full_effect :
    (t t' : Infractions) (b shown : Bool)
    → b ≡ true
    → shown ≡ true
    → (if b && shown then t' else t) ≡ t'
full_effect t t' b shown p q = rw (p, q) refl

concluded :
    (d : Answers) (t t' : Infractions) (o : Option Response) (Rows : Type 0)
    → IsShown o Rows
    → Effect d.committed t' t (conclude d t (o >>= λ response. some (t', response)))
      × (d.deferred ≡ true
          → d.edited ≡ true
          → Rows
          → is_updated (conclude d t (o >>= λ response. some (t', response))).1 ≡ true)
unfolding conclude
concluded d t t' none Rows v = (no_effect t t' d.committed, λ a b h. absurd (v h))
concluded d t t' (some response) Rows v = (effect, λ a b h. rw (a, b) v)
  where
    effect : Effect d.committed t' t (conclude d t (some (t', response)))
    effect = elim (Bool-cases (d.deferred && d.edited)) [
      | inl e ↦ rw (e, v) (shown_effect t t' d.committed)
      | inr e ↦ rw e (no_effect t t' d.committed)
    ]

-- A click on a component that removes infractions, where `choice` is selected in a menu.
abbrev pub press :
    Answers → Bool → ℕ → RemovalControl → ℕ → List Row → Infractions → Infractions × Response
press d may_moderate now c choice rows t =
    process_infractions_remove d may_moderate now (removal_text c) (decimal choice) rows t

module _ (d : Answers) (now choice : ℕ) (rows : List Row) (t : Infractions) where
  by_transaction :
      (c : RemovalControl)
      → carry_out now (decimal choice) rows t (asked c)
        ≡ (shown now choice rows t c >>= λ response. some (remaining c choice t, response))
      → Effect d.committed
          (remaining c choice t)
          t
          (conclude d t (carry_out now (decimal choice) rows t (asked c)))
        × (d.deferred ≡ true
            → d.edited ≡ true
            → HasRows c rows
            → is_updated (conclude d t (carry_out now (decimal choice) rows t (asked c))).1 ≡ true)
  by_transaction c q = rw q (
      concluded d t (remaining c choice t) (shown now choice rows t c) (HasRows c rows)
        (shown-IsShown now choice rows t c))

  removed :
      (c : RemovalControl)
      → IsWide c choice
      → Effect d.committed
          (remaining c choice t)
          t
          (remove_as d now (decimal choice) rows t (asked c))
        × (d.deferred ≡ true
            → d.edited ≡ true
            → HasRows c rows
            → is_updated (remove_as d now (decimal choice) rows t (asked c)).1 ≡ true)
  unfolding remove_as cancel_removal
  removed (cancel user) lt = (
    if-holds (λ (x : Infractions). t ≡ x)
        (d.committed && is_updated (cancel_removal d (decimal user) rows)) _ _ (λ p. keep_all t)
        (λ p. refl),
    λ a b h. elim (Option-cases (restore (decimal user) rows)) [
      | inl q ↦ absurd (restored (decimal user) rows q h)
      | inr (rows', q) ↦ rw (cancel_removal, q, b) refl
    ],
  )
  removed (remove_one user) lt =
      by_transaction (remove_one user) (carried now choice rows t (remove_one user) tt lt)
  removed (remove_all user) lt =
      by_transaction (remove_all user) (carried now choice rows t (remove_all user) tt lt)
  removed (menu user) lt = by_transaction (menu user) (carried now choice rows t (menu user) tt lt)
  removed (undo user time) lt =
      by_transaction (undo user time) (carried now choice rows t (undo user time) tt lt)

  by_moderator :
      (c : RemovalControl)
      → press d true now c choice rows t ≡ remove_as d now (decimal choice) rows t (asked c)
  unfolding process_infractions_remove
  by_moderator c = ap (remove_as d now (decimal choice) rows t) (parse_removal-removal_text c)

pub process_infractions_remove-remaining :
    (d : Answers) (may_moderate : Bool) (now choice : ℕ) (rows : List Row) (t : Infractions)
    (c : RemovalControl)
    → IsWide c choice
    → ((press d may_moderate now c choice rows t).0 ≡ (
        if may_moderate && (d.committed && is_updated (press d may_moderate now c choice rows t).1)
        then remaining c choice t
        else t))
      × (HasRows c rows
          → may_moderate ≡ true
          → d.deferred ≡ true
          → d.edited ≡ true
          → is_updated (press d may_moderate now c choice rows t).1 ≡ true)
unfolding process_infractions_remove
process_infractions_remove-remaining d false now choice rows t c lt = (refl, λ has may a b. cc)
process_infractions_remove-remaining d true now choice rows t c lt =
    let (effect, done) = removed d now choice rows t c lt in
    subst
      (λ (r : Infractions × Response).
        Effect d.committed (remaining c choice t) t r
        × (HasRows c rows
            → ◌≡◌ {A = Bool} true true
            → d.deferred ≡ true
            → d.edited ≡ true
            → is_updated r.1 ≡ true))
      (sym (by_moderator d now choice rows t c)) (effect, λ has may a b. done a b has)

-- If a moderator clicks on it, the message has the rows that the click changes, and Discord and the
-- database accept, then exactly the infractions that it names are gone and the message is updated.
pub process_infractions_remove_lem :
    (d : Answers) (now choice : ℕ) (rows : List Row) (t : Infractions) (c : RemovalControl)
    → IsWide c choice
    → HasRows c rows
    → d.deferred ≡ true
    → d.edited ≡ true
    → d.committed ≡ true
    → ((press d true now c choice rows t).0 ≡ remaining c choice t)
      × (is_updated (press d true now c choice rows t).1 ≡ true)
process_infractions_remove_lem d now choice rows t c lt has a b e =
    let (effect, done) = process_infractions_remove-remaining d true now choice rows t c lt in
    let shown_now = done has refl a b in (effect ∙ full_effect t _ _ _ e shown_now, shown_now)
