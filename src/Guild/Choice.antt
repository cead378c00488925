-- ===== src/Guild/Choice.antt =====
-- GreekBot/GreekBot_Role.cpp: the roles that members choose. Of the replies their kind is kept.
use greek_bot.Prelude.{ℕ, Bool, not, List, [], ◌∷◌, ◌++◌, if◌then◌else◌, ◌==◌, contains, filterb}
use greek_bot.LearningGreek.Role
use greek_bot.LearningGreek.{proficiency_roles}

pub data RoleReply : Type 0 where
  only_for_natives : RoleReply
  unexpected_role : RoleReply
  took_away : RoleReply
  gave : RoleReply
  only_for_boosters : RoleReply

abbrev pub valid_roles : List ℕ
valid_roles =
    357714047698993162 ∷ 469239964119597056 ∷ 481544681520365577 ∷ 637359870009409576
    ∷ 649313942002466826 ∷ 683443550410506273 ∷ 762747975164100608 ∷ 800464173385515058
    ∷ 886625423167979541 ∷ 928364890601685033 ∷ []

-- LMG_NITRO_BOOSTER_COLOR_ROLES.
abbrev pub color_roles : List ℕ
color_roles =
    657145859439329280 ∷ 677183404743327764 ∷ 735954079355895889 ∷ 755763454266179595
    ∷ 777323857018617877 ∷ 793570278084968488 ∷ 925379778251485206 ∷ 941041008169336913
    ∷ 1109212629882392586 ∷ 1121773567785308181 ∷ 1156980445058170991 ∷ 1163945469567832215
    ∷ 1265742860783845558 ∷ 1468608859567554631 ∷ []

-- The roles of the member after the request, if there is one, was carried out.
unfoldable pub toggle : ℕ → List ℕ → List ℕ × RoleReply
toggle selected roles =
    if contains roles selected
    then (filterb (λ r. not (r == selected)) roles, took_away)
    else (roles ++ (selected ∷ []), gave)

unfoldable pub process_role_button : ℕ → List ℕ → List ℕ × RoleReply
unfolding toggle
process_role_button selected roles =
    if selected == Role.poll
    then if contains roles Role.native then toggle selected roles else (roles, only_for_natives)
    else if contains valid_roles selected
    then toggle selected roles
    else (roles, unexpected_role)

abbrev pub without : List ℕ → List ℕ → List ℕ
without removed roles = filterb (λ r. not (contains removed r)) roles

unfoldable pub process_proficiency_menu : ℕ → List ℕ → List ℕ
process_proficiency_menu selected roles =
    without proficiency_roles roles
    ++ (selected ∷ (if selected == Role.cyprus then Role.native ∷ [] else []))

unfoldable pub process_booster_menu : ℕ → Bool → List ℕ → List ℕ × RoleReply
process_booster_menu selected boosts roles =
    if selected == 0
    then (without color_roles roles, took_away)
    else if not boosts
    then (roles, only_for_boosters)
    else (without color_roles roles ++ (selected ∷ []), gave)
