-- ===== src/Nicknames/Examples.antt =====
-- Members with nicknames.
use greek_bot.Prelude.{◌≡◌, refl, some, true, false, [], ◌∷◌, codes}
use greek_bot.LearningGreek.Role as Role
use greek_bot.Nicknames.Table.{get, delete_message, update, register_message}
use greek_bot.Nicknames.Members.{
  Answers, Member, done, failed, create_note, process_nick_member_update,
}
use greek_bot.Prelude.Table.{any, put, find}

abbrev answers : Answers
answers = record { modified = done; changed = failed; created = some 77 }

abbrev named : Member
named = record { id = 4; is_pending = false; nickname = codes "Nikos"; roles = [] }

abbrev newcomer : Member
newcomer = record { id = 4; is_pending = true; nickname = []; roles = [] }

abbrev beginner : Member
beginner = record { id = 4; is_pending = false; nickname = []; roles = Role.beginner ∷ [] }

-- A new message announces a member without a nickname, and none one who has yet to be verified.
beginner_announced : (process_nick_member_update answers beginner []).requests ≡ create_note ∷ []
unfolding get process_nick_member_update find register_message any
beginner_announced = refl

newcomer_ignored : (process_nick_member_update answers newcomer []).requests ≡ []
unfolding get process_nick_member_update delete_message find
newcomer_ignored = refl

-- The nickname of a member is kept for the next time, without a request.
name_kept : (process_nick_member_update answers named []).requests ≡ []
unfolding get process_nick_member_update delete_message find update put
name_kept = refl
