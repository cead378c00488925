-- ===== src/Infractions/Panel.antt =====
-- The message with the infractions of a user: of its embed what it describes, and its components.
use greek_bot.Prelude.{ℕ, List, [], ◌∷◌, ◌++◌, Option, none, some, map, codes}
use greek_bot.Infractions.Table.{Infraction}
use greek_bot.Infractions.Statistics.{Statistics}

pub data Label : Type 0 where
  remove_an_infraction : Label
  remove_all_infractions : Label
  cancel_label : Label

pub record Button : Type 0 where
  pub label : Label
  pub custom_id : List ℕ

-- A row of buttons, or a select menu with the times that it offers.
pub data Row : Type 0 where
  buttons : List Button → Row
  menu_row : List ℕ → List ℕ → Row

-- The description, where the fields are reset but with the statistics.
pub data Embed : Type 0 where
  no_infractions_found : Embed
  all_infractions_removed : Embed
  infraction_removed : Embed
  no_infractions_to_remove : Embed
  statistics : Statistics → Embed

-- The buttons of process_infractions and process_infractions_button.
unfoldable pub removal_buttons : List ℕ → Row
removal_buttons user = buttons (
    record { label = remove_an_infraction; custom_id = codes "unwarn:" ++ user }
    ∷ record { label = remove_all_infractions; custom_id = codes "unwarn:all:" ++ user }
    ∷ [])

-- `SetLabel` and `SetCustomId` of the first button of a row; any other row throws.
unfoldable pub relabel : Label → List ℕ → Row → Option Row
relabel label id (buttons (b ∷ bs)) = some (buttons (record { label = label; custom_id = id } ∷ bs))
relabel label id (buttons []) = none
relabel label id (menu_row menu_id options) = none

-- The second row alone, with its first button changed back.
unfoldable pub restore : List ℕ → List Row → Option (List Row)
unfolding relabel
restore user (first ∷ second ∷ rows) =
    elim (relabel remove_an_infraction (codes "unwarn:" ++ user) second) [
      | none ↦ none
      | some row ↦ some (row ∷ [])
    ]
restore user (first ∷ []) = none
restore user [] = none

unfoldable pub offered : List Infraction → List ℕ
offered entries = map (λ (r : Infraction). r.timestamp) entries

-- A menu before the rows, the first of which gets a button to cancel.
unfoldable pub add_menu : List ℕ → List Infraction → List Row → Option (List Row)
unfolding relabel offered
add_menu user entries [] = none
add_menu user entries (first ∷ rows) =
    elim (relabel cancel_label (codes "unwarn:cancel:" ++ user) first) [
      | none ↦ none
      | some row ↦ some (menu_row (codes "unwarn:menu:" ++ user) (offered entries) ∷ row ∷ rows)
    ]
