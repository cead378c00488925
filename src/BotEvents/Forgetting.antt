-- ===== src/BotEvents/Forgetting.antt =====
-- Deleted messages are forgotten by all components.
use greek_bot.Prelude.{
  ℕ, ◌≡◌, refl, Bool, true, List, Option, none, if◌then◌else◌, contains, Bool-cases, inl, inr,
  Option-cases,
}
use greek_bot.Prelude.Table.{find, find-erase_all}
use greek_bot.MessageLog.Table.{MessageLog, remaining_logs, deleted_logs}
use greek_bot.MessageLog.Reports.{authors_of, DeletionEmbed, process_msglog_message_delete}
use greek_bot.Starboard.Reactions.{Replies, World, message_delete}
use greek_bot.Starboard.Deletion.{find-delete_all}
use greek_bot.BotEvents.Messages.{Tables, in_guild, on_message_delete_bulk}

board_forgets :
    (d : Replies) (ids : List ℕ) (w : World) (k : ℕ)
    → find k (message_delete d ids w).0.table ≡ (if contains ids k then none else find k w.table)
unfolding message_delete
board_forgets d ids w k = elim (Bool-cases d.deleted) [
  | inl accepted ↦ rw accepted (find-delete_all ids k w.table)
  | inr refused ↦ rw refused (find-delete_all ids k w.table)
]

log_forgets :
    (answer : ℕ → Option Bool) (accepted : List DeletionEmbed → Bool)
    (members : List ℕ → Option (List ℕ)) (ids : List ℕ) (t : MessageLog) (k : ℕ)
    → find k (process_msglog_message_delete answer accepted members ids t).0
      ≡ (if contains ids k then none else find k t)
unfolding process_msglog_message_delete remaining_logs
log_forgets answer accepted members ids t k =
    elim (Option-cases (members (authors_of (deleted_logs ids t)))) [
      | inl broken ↦ rw (process_msglog_message_delete, broken) (find-erase_all ids k t)
      | inr (found, known) ↦ rw (process_msglog_message_delete, known) (find-erase_all ids k t)
    ]

-- If messages of the guild are deleted then, whatever Discord answers and whichever component ends by an
-- exception, the message log and the starboard forget exactly these messages, and the leaderboard
-- stays as it is.
pub on_message_delete_bulk-forgets :
    (answer : ℕ → Option Bool) (accepted : List DeletionEmbed → Bool)
    (members : List ℕ → Option (List ℕ)) (d : Replies) (guild : Option ℕ) (ids : List ℕ)
    (t : Tables) (k : ℕ)
    → in_guild guild ≡ true
    → (find k (on_message_delete_bulk answer accepted members d guild ids t).0.log
        ≡ (if contains ids k then none else find k t.log))
      × (find k (on_message_delete_bulk answer accepted members d guild ids t).0.board.table
          ≡ (if contains ids k then none else find k t.board.table))
      × ((on_message_delete_bulk answer accepted members d guild ids t).0.ranks ≡ t.ranks)
unfolding on_message_delete_bulk
on_message_delete_bulk-forgets answer accepted members d guild ids t k ours =
    rw ours (log_forgets answer accepted members ids t.log k, board_forgets d ids t.board k, refl)
