-- ===== src/Leaderboard/Sync.antt =====
-- `process_leaderboard_new_message` of GreekBot/GreekBot_Leaderboard.cpp: from the XP that the
-- database reports to the roles that are sent to Discord. `std::ranges::partition` fixes no order
-- inside its two groups; here both keep theirs.
use greek_bot.Prelude.{
  ℕ, List, [], ◌∷◌, ◌++◌, Bool, not, leb, ◌==◌, if◌then◌else◌, filterb, contains,
}
use greek_bot.LearningGreek.{rank_roles}
use greek_bot.LearningGreek
use greek_bot.Leaderboard.Levels.{calculate_level_info}
use greek_bot.Leaderboard.Table.{Row, update}

-- The rank role of a level, 0 for none.
unfoldable pub target_role : ℕ → ℕ
target_role level =
    if leb 150 level
    then LearningGreek.Role.veteranos
    else if leb 100 level
    then LearningGreek.Role.palios
    else if leb 70 level
    then LearningGreek.Role.ellinopoulo
    else if leb 50 level
    then LearningGreek.Role.epitimos
    else if leb 40 level
    then LearningGreek.Role.proestos
    else if leb 35 level
    then LearningGreek.Role.greek_lover
    else if leb 25 level
    then LearningGreek.Role.usual_suspect
    else if leb 20 level
    then LearningGreek.Role.really_active_member
    else if leb 15 level
    then LearningGreek.Role.active_member
    else if leb 10 level
    then LearningGreek.Role.member
    else if leb 6 level
    then LearningGreek.Role.active_user
    else 0

-- `std::ranges::binary_search(LMG_RANK_ROLES, role_id)`; the array is sorted.
abbrev pub is_rank_role : ℕ → Bool
is_rank_role id = contains rank_roles id

-- Whether `ModifyGuildMember` is called, and with which roles.
pub data Request : Type 0 where
  keep : Request
  set_roles : List ℕ → Request

-- The switch over the number of rank roles; `others` and `ranks` are the two groups.
unfoldable pub choose : List ℕ → List ℕ → ℕ → Request
choose others [] target = if target == 0 then keep else set_roles (others ++ target ∷ [])
choose others (role ∷ []) target =
    if target == 0
    then set_roles others
    else if role == target
    then keep
    else set_roles (others ++ target ∷ [])
choose others (role ∷ next ∷ ranks) target =
    if target == 0 then set_roles others else set_roles (others ++ target ∷ [])

abbrev pub others : List ℕ → List ℕ
others = filterb λ id. not (is_rank_role id)

abbrev pub ranks : List ℕ → List ℕ
ranks = filterb is_rank_role

unfoldable pub sync : List ℕ → ℕ → Request
unfolding choose
sync roles target = choose (others roles) (ranks roles) target

-- `process_leaderboard_new_message`: the table afterwards and the request to Discord. The roles
-- are those of the message's member; an XP of 0 means that the message was not counted.
unfoldable pub new_message : ℕ → ℕ → ℕ → List ℕ → List Row → List Row × Request
unfolding sync target_role
new_message author now draw roles table =
    let (table', xp) = update author now draw table in
    if xp == 0
    then (table', keep)
    else (table', sync roles (target_role (calculate_level_info xp).level))
