-- ===== src/Leaderboard/Examples.antt =====
-- Instances of the theorems about the leaderboard, and tests.
use greek_bot.Prelude.{
  ℕ, ◌+◌, ◌*◌, ◌≤◌, ◌<◌, ◌≡◌, refl, List, [], ◌∷◌, inr, ◌⊎◌, arith, some, true, ◌≢◌,
}
use greek_bot.LearningGreek
use greek_bot.Guild.Colors.{no_roles}
use greek_bot.Starboard.Commands.{gold}
use greek_bot.Leaderboard.Commands.{process_top, ranked, progress_embed, not_member_embed}
use greek_bot.Leaderboard.Levels.{
  calculate_level_info, calculate_level_info_lem, threshold, next_level_xp_bound,
}
use greek_bot.Leaderboard.Table.{Row, gain, find, update, IsValid, IsRecent, gain_bounds}
use greek_bot.Leaderboard.Sync.{target_role, keep, set_roles, sync, new_message}
use greek_bot.Leaderboard.RankRoles.{
  IsSynced, sync-IsSynced, new_message-IsSynced, veteranos_repeated,
}

-- Level 1 begins above 100 XP, and level 2 above 255.
levels :
    ((calculate_level_info 100).level ≡ 0)
    × ((calculate_level_info 101).level ≡ 1)
    × ((calculate_level_info 256).level ≡ 2)
unfolding calculate_level_info
levels = (refl, refl, refl)

calculate_level_info_lem_example :
    (6 * (calculate_level_info 300).level_xp ≡ threshold (calculate_level_info 300).level)
    × (6 * (calculate_level_info 300).next_level_xp
        ≡ threshold ((calculate_level_info 300).level + 1))
    × (300 ≤ (calculate_level_info 300).next_level_xp)
    × (((calculate_level_info 300).level ≡ 0) ⊎ ((calculate_level_info 300).level_xp < 300))
calculate_level_info_lem_example = calculate_level_info_lem 300

next_level_xp_bound_example : (calculate_level_info 5000).next_level_xp ≤ 3 * 5000 + 100
next_level_xp_bound_example = next_level_xp_bound 5000

gain_bounds_example : (15 ≤ gain 123459) × (gain 123459 ≤ 24)
gain_bounds_example = gain_bounds 123459

-- Two users, the first counted at time 1000.
abbrev table : List Row
table =
    record { id = 7; num_msg = 3; xp = 60; timestamp = 1000 }
    ∷ record { id = 9; num_msg = 10; xp = 200; timestamp = 500 }
    ∷ []

table-IsValid : IsValid table
unfolding find
table-IsValid = (omega arith, refl, (omega arith, refl, tt))

recent : IsRecent 1059 (find 7 table)
unfolding find
recent = omega arith

not-IsRecent : ¬ IsRecent 1060 (find 7 table)
unfolding find
not-IsRecent = omega arith

-- A member with a role of their own and two rank roles.
abbrev roles : List ℕ
roles = 42 ∷ LearningGreek.Role.member ∷ LearningGreek.Role.palios ∷ []

sync-IsSynced_example :
    IsSynced roles LearningGreek.Role.palios (sync roles LearningGreek.Role.palios)
sync-IsSynced_example = sync-IsSynced roles LearningGreek.Role.palios (inr refl)

low_level : (calculate_level_info (update 7 1060 4 table).1).level < 150
unfolding calculate_level_info update
low_level = omega arith

new_message-IsSynced_example :
    ((update 7 1060 4 table).1 ≡ 0 → (new_message 7 1060 4 roles table).1 ≡ keep)
    × ((update 7 1060 4 table).1 ≢ 0
        → IsSynced roles
            (target_role (calculate_level_info (update 7 1060 4 table).1).level)
            (new_message 7 1060 4 roles table).1)
new_message-IsSynced_example = new_message-IsSynced 7 1060 4 roles table low_level

-- A user beyond level 150.
abbrev top_table : List Row
top_table = record { id = 7; num_msg = 300000; xp = 9000000; timestamp = 1000 } ∷ []

top_level : 150 ≤ (calculate_level_info (update 7 1060 4 top_table).1).level
unfolding calculate_level_info update
top_level = omega arith

top_counted : (update 7 1060 4 top_table).1 ≢ 0
unfolding update
top_counted p = absurd (omega arith)

-- A veteran already: the role is sent twice.
veteranos_repeated_example :
    (new_message 7 1060 4 (42 ∷ LearningGreek.Role.veteranos ∷ []) top_table).1
    ≡ set_roles (42 ∷ LearningGreek.Role.veteranos ∷ LearningGreek.Role.veteranos ∷ [])
veteranos_repeated_example =
    veteranos_repeated 7 1060 4 (42 ∷ []) [] top_table top_level top_counted

-- The user with fewer messages is second among those with the same XP, and has left the guild.
two_ranked :
    (process_top
      (λ us. (8, []) ∷ [])
      (λ u. true)
      (record { id = 7; num_msg = 3; xp = 120; timestamp = 0 }
        ∷ record { id = 8; num_msg = 5; xp = 120; timestamp = 0 }
        ∷ [])
      no_roles).1
    ≡ ranked (
        progress_embed 8 0 (record {
          medal = gold;
          rank = 1;
          level = 1;
          gained = 20;
          needed = 155;
          xp = 120;
          num_msg = 5;
        })
        ∷ not_member_embed (some 7) true
        ∷ [])
unfolding process_top
two_ranked = refl
