-- ===== src/Infractions/Clicks.antt =====
-- Clicks on concrete components.
use greek_bot.Prelude.{◌≡◌, ◌++◌, refl, arith, true, false, [], ◌∷◌, codes, length, min, filterb}
use mathlib.Core.List.{Perm}
use greek_bot.Interactions.Controls.{undo}
use greek_bot.Infractions.Table.{Infractions, new_row}
use greek_bot.Infractions.Statistics.{get_stats_by_user, is_past}
use greek_bot.Infractions.Removal.{Answers}
use greek_bot.Infractions.Pressing.{is_updated}
use greek_bot.Infractions.Effects.{press, process_infractions_remove_lem}
use greek_bot.Infractions.Newest.{get_stats_by_user-IsNewest, IsDescending}

abbrev accepted : Answers
accepted = record { deferred = true; modified = true; edited = true; committed = true }

-- The message is edited, but the commit fails.
abbrev undecided : Answers
undecided = record { deferred = true; modified = true; edited = true; committed = false }

abbrev warned : Infractions
warned = new_row 5 1000 (codes "spam") ∷ new_row 6 1000 [] ∷ new_row 5 2000 [] ∷ []

-- One infraction of user 5 is undone.
process_infractions_remove_lem_example :
    ((press accepted true 3000 (undo 5 1000) 0 [] warned).0
      ≡ new_row 6 1000 [] ∷ new_row 5 2000 [] ∷ [])
    × (is_updated (press accepted true 3000 (undo 5 1000) 0 [] warned).1 ≡ true)
process_infractions_remove_lem_example =
    process_infractions_remove_lem accepted 3000 0 [] warned (undo 5 1000)
      (omega arith, omega arith) tt refl refl refl

get_stats_by_user-IsNewest_example :
    (others : Infractions) × Perm
      ((get_stats_by_user 5 3000 warned).entries ++ others)
      (filterb (is_past 5 3000) warned)
    × IsDescending ((get_stats_by_user 5 3000 warned).entries ++ others)
    × (length (get_stats_by_user 5 3000 warned).entries
        ≡ min 10 (length ((get_stats_by_user 5 3000 warned).entries ++ others)))
get_stats_by_user-IsNewest_example = get_stats_by_user-IsNewest 5 3000 warned

newest_first :
    (get_stats_by_user 5 3000 warned).entries
    ≡ new_row 5 2000 [] ∷ new_row 5 1000 (codes "spam") ∷ []
unfolding get_stats_by_user
newest_first = refl
