-- ===== src/MessageLog/Examples.antt =====
-- Three logged messages, of which two are deleted.
use greek_bot.Prelude.{ℕ, Option, ◌≡◌, true, List, [], ◌∷◌, none, some, refl, ◌==◌}
use greek_bot.Prelude.Table.{find}
use greek_bot.MessageLog.Table.{LoggedMessage, MessageLog, deleted_logs}
use greek_bot.MessageLog.Reports.{
  process_msglog_message_delete, report_all, report_one, report_rest, look_up, send_embeds,
}
use greek_bot.MessageLog.Deletions.{IsReported, process_msglog_message_delete-IsReported}

abbrev by_five : LoggedMessage
by_five = record { channel_id = 40; author_id = 5; text = some (97 ∷ []) }

abbrev by_six : LoggedMessage
by_six = record { channel_id = 40; author_id = 6; text = none }

abbrev three_messages : MessageLog
three_messages = (100, by_five) ∷ (101, by_six) ∷ (102, by_six) ∷ []

abbrev no_members : List ℕ → Option (List ℕ)
no_members users = some []

-- Discord knows user 5; each author is asked for once.
users_asked :
    (process_msglog_message_delete
      (λ u. some (u == 5))
      (λ m. true)
      no_members
      (102 ∷ 101 ∷ [])
      three_messages).1.asked
    ≡ 6 ∷ []
unfolding process_msglog_message_delete deleted_logs report_all report_one report_rest look_up
    send_embeds find
users_asked = refl

process_msglog_message_delete-IsReported_example :
    IsReported
      (λ u. u == 5)
      (some [])
      (102 ∷ 101 ∷ [])
      three_messages
      (process_msglog_message_delete
        (λ u. some (u == 5))
        (λ m. true)
        no_members
        (102 ∷ 101 ∷ [])
        three_messages)
process_msglog_message_delete-IsReported_example =
    process_msglog_message_delete-IsReported (λ u. u == 5) (λ u. some (u == 5)) (λ m. true)
      no_members (102 ∷ 101 ∷ []) three_messages (λ a. refl) (λ m. refl)
