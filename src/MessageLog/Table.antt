-- ===== src/MessageLog/Table.antt =====
-- Database/MessageLog/MessageLog.cpp over the table `messages` of Database/query_init.sql. `none` is the
-- exception that a repeated id throws.
use greek_bot.Prelude.{ℕ, ◌/◌, ◌^◌, List, [], ◌∷◌, Option, none, some, if◌then◌else◌, contains, ltb}
use greek_bot.Prelude.Table.{find, put, erase_all}

pub record LoggedMessage : Type 0 where
  pub channel_id : ℕ
  pub author_id : ℕ
  pub text : Option (List ℕ)

abbrev pub MessageLog : Type 0
MessageLog = List (ℕ × LoggedMessage)

-- Empty content is stored as null.
abbrev pub stored : List ℕ → Option (List ℕ)
stored [] = none
stored (c ∷ s) = some (c ∷ s)

unfoldable pub register_log : ℕ → ℕ → ℕ → List ℕ → MessageLog → Option MessageLog
register_log msg channel author content t = elim (find msg t) [
  | some e ↦ none
  | none ↦
      some (put msg (record { channel_id = channel; author_id = author; text = stored content }) t)
]

unfoldable pub get_log : ℕ → MessageLog → Option LoggedMessage
get_log msg t = find msg t

unfoldable pub update_log : ℕ → List ℕ → MessageLog → MessageLog
update_log msg content t = elim (find msg t) [
  | none ↦ t
  | some e ↦ put msg (record e { text = stored content }) t
]

-- `Delete`: the rows that are left, and those that were deleted.
unfoldable pub remaining_logs : List ℕ → MessageLog → MessageLog
unfolding erase_all
remaining_logs ids t = erase_all ids t

unfoldable pub deleted_logs : List ℕ → MessageLog → MessageLog
deleted_logs ids [] = []
deleted_logs ids ((msg, e) ∷ t) =
    let rest = deleted_logs ids t in if contains ids msg then (msg, e) ∷ rest else rest

-- `Cleanup`: ids have their time in milliseconds above the lowest 22 bits.
unfoldable pub cleanup_logs : ℕ → MessageLog → MessageLog
cleanup_logs oldest [] = []
cleanup_logs oldest ((msg, e) ∷ t) =
    let rest = cleanup_logs oldest t in if ltb (msg / 2 ^ 22) oldest then rest else (msg, e) ∷ rest
