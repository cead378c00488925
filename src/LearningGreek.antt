-- ===== src/LearningGreek.antt =====
-- The ids of GreekBot/LearningGreek.h that the handlers test against: the guild, its channels, its
-- role groups and the :Holy: emoji; its roles are in the child. A snowflake is the 64-bit integer
-- that it wraps.
pub mod Role
use greek_bot.Prelude.{ℕ, List, [], ◌∷◌}
use Role

abbrev pub guild_id : ℕ
guild_id = 350234668680871946

abbrev pub channel_native_polls : ℕ
channel_native_polls = 650331739293745172

abbrev pub rank_roles : List ℕ
rank_roles =
    Role.member ∷ Role.active_member ∷ Role.active_user ∷ Role.really_active_member
    ∷ Role.usual_suspect ∷ Role.greek_lover ∷ Role.proestos ∷ Role.epitimos ∷ Role.ellinopoulo
    ∷ Role.palios ∷ []

abbrev pub proficiency_roles : List ℕ
proficiency_roles =
    Role.non_learner ∷ Role.beginner ∷ Role.elementary ∷ Role.intermediate ∷ Role.upper_intermediate
    ∷ Role.advanced ∷ Role.fluent ∷ Role.native ∷ Role.cyprus ∷ []

abbrev pub booster_color_roles : List ℕ
booster_color_roles =
    657145859439329280 ∷ 677183404743327764 ∷ 735954079355895889 ∷ 755763454266179595
    ∷ 777323857018617877 ∷ 793570278084968488 ∷ 925379778251485206 ∷ 941041008169336913
    ∷ 1109212629882392586 ∷ 1121773567785308181 ∷ 1156980445058170991 ∷ 1163945469567832215
    ∷ 1265742860783845558 ∷ 1468608859567554631 ∷ []

abbrev pub emoji_id_holy : ℕ
emoji_id_holy = 409075809723219969
