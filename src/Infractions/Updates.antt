-- ===== src/Infractions/Updates.antt =====
-- What the components that remove infractions carry out, and the updates of the message that they show.
use greek_bot.Prelude.{
  ℕ, ◌≡◌, refl, ap, true, List, [], ◌∷◌, Option, none, some, Bool-cases, inl, inr, ◌>>=◌, is_empty,
  Option-cases,
}
use greek_bot.Utils.Digits.{decimal}
use greek_bot.Utils.Snowflake.{from_int, from_text-decimal, parse_milliseconds-decimal}
use greek_bot.Interactions.Controls.{RemovalControl, remove_one, remove_all, cancel, menu, undo}
use greek_bot.Infractions.Table.{Infractions}
use greek_bot.Infractions.Panel.{
  Row, buttons, restore, add_menu, relabel, menu_row, all_infractions_removed, infraction_removed,
}
use greek_bot.Infractions.Removal.{Response, updated, choices, after_selection}
use greek_bot.Infractions.Buttons.{carry_out}
use greek_bot.Infractions.Statistics.{get_stats_by_user, Statistics}
use greek_bot.Infractions.Pressing.{
  asked, delete-filterb, delete_all-filterb, keep_all, remaining, IsWide, is_updated,
}

-- The rows whose buttons a click relabels are there.
abbrev pub HasButton : Row → Type 0
HasButton (buttons (b ∷ bs)) = Unit
HasButton (buttons []) = ⊥
HasButton (menu_row id options) = ⊥

abbrev pub HasSecond : List Row → Type 0
HasSecond (first ∷ second ∷ rows) = HasButton second
HasSecond _ = ⊥

abbrev pub HasFirst : List Row → Type 0
HasFirst (first ∷ rows) = HasButton first
HasFirst [] = ⊥

abbrev pub HasRows : RemovalControl → List Row → Type 0
HasRows (remove_one user) rows = HasFirst rows
HasRows (cancel user) rows = HasSecond rows
HasRows (menu user) rows = HasSecond rows
HasRows _ rows = Unit

-- An update, or the exception of a message without the row.
abbrev pub IsShown : Option Response → Type 0 → Type 0
IsShown none Rows = (Rows → ⊥)
IsShown (some response) Rows = is_updated response ≡ true

pub restored : (user : List ℕ) (rows : List Row) → (restore user rows ≡ none → HasSecond rows → ⊥)
unfolding restore relabel
restored user [] q h = h
restored user (first ∷ []) q h = h
restored user (first ∷ buttons (b ∷ bs) ∷ rows) q h = cc
restored user (first ∷ buttons [] ∷ rows) q h = h
restored user (first ∷ menu_row id options ∷ rows) q h = h

menu_added :
    (user : List ℕ) (entries : Infractions) (rows : List Row)
    → (add_menu user entries rows ≡ none → HasFirst rows → ⊥)
unfolding add_menu relabel
menu_added user entries [] q h = h
menu_added user entries (buttons (b ∷ bs) ∷ rows) q h = cc
menu_added user entries (buttons [] ∷ rows) q h = h
menu_added user entries (menu_row id options ∷ rows) q h = h

module _ (now choice : ℕ) (rows : List Row) (t : Infractions) where
  choices-IsShown :
      (user : List ℕ) (stats : Statistics) → IsShown (choices user stats rows) (HasFirst rows)
  unfolding choices
  choices-IsShown user stats = elim (Bool-cases (is_empty stats.entries)) [
    | inl e ↦ rw e refl
    | inr e ↦ elim (Option-cases (add_menu user stats.entries rows)) [
      | inl q ↦ rw (e, q) (menu_added user stats.entries rows q)
      | inr (rows', q) ↦ rw (e, q) refl
    ]
  ]

  selection-IsShown :
      (user : List ℕ) (stats : Statistics)
      → IsShown (after_selection user stats rows) (HasSecond rows)
  unfolding after_selection
  selection-IsShown user stats = elim (Bool-cases (is_empty stats.entries)) [
    | inl e ↦ rw e refl
    | inr e ↦ elim (Option-cases (restore user rows)) [
      | inl q ↦ rw (e, q) (restored user rows q)
      | inr (rows', q) ↦ rw (e, q) refl
    ]
  ]

  -- The response where the click is carried out.
  unfoldable pub shown : RemovalControl → Option Response
  shown (remove_one user) = choices (decimal user) (get_stats_by_user user now t) rows
  shown (remove_all user) = some (updated (some all_infractions_removed) [])
  shown (cancel user) = restore (decimal user) rows >>= λ rows'. some (updated none rows')
  shown (menu user) =
      after_selection (decimal user) (get_stats_by_user user now (remaining (menu user) choice t))
        rows
  shown (undo user time) = some (updated (some infraction_removed) [])

  abbrev NeedsTable : RemovalControl → Type 0
  NeedsTable (cancel user) = ⊥
  NeedsTable _ = Unit

  pub carried :
      (c : RemovalControl)
      → NeedsTable c
      → IsWide c choice
      → carry_out now (decimal choice) rows t (asked c)
        ≡ (shown c >>= λ response. some (remaining c choice t, response))
  unfolding carry_out shown from_int
  carried (remove_one user) n lt = rw (from_text-decimal user lt, ← keep_all t) refl
  carried (remove_all user) n lt = rw (from_text-decimal user lt, ← delete_all-filterb user t) refl
  carried (cancel user) n lt = absurd n
  carried (menu user) n (lt, lt') =
      rw (from_text-decimal user lt, parse_milliseconds-decimal choice lt')
        (ap
          (λ (t' : Infractions).
            after_selection (decimal user) (get_stats_by_user user now t') rows >>= λ response.
            some (t', response))
          (delete-filterb user choice t))
  carried (undo user time) n (lt, lt') =
      rw (from_text-decimal user lt, parse_milliseconds-decimal time lt')
        (ap (λ (t' : Infractions). some (t', updated (some infraction_removed) []))
          (delete-filterb user time t))

  pub shown-IsShown : (c : RemovalControl) → IsShown (shown c) (HasRows c rows)
  unfolding shown choices after_selection
  shown-IsShown (remove_one user) = choices-IsShown (decimal user) (get_stats_by_user user now t)
  shown-IsShown (remove_all user) = refl
  shown-IsShown (cancel user) = elim (Option-cases (restore (decimal user) rows)) [
    | inl q ↦ rw q (restored (decimal user) rows q)
    | inr (rows', q) ↦ rw q refl
  ]
  shown-IsShown (menu user) =
      selection-IsShown (decimal user) (get_stats_by_user user now (remaining (menu user) choice t))
  shown-IsShown (undo user time) = refl
