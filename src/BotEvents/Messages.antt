-- ===== src/BotEvents/Messages.antt =====
-- The handlers of GreekBot/GreekBot_MessageEvents.cpp. An exception that leaves one of the components is
-- caught and reported, and the next component goes on. The detection of compromised accounts is left
-- out.
use greek_bot.Prelude.{
  ℕ, Bool, false, not, ◌&&◌, List, [], ◌∷◌, Option, none, some, ◌==◌, if◌then◌else◌,
}
use greek_bot.LearningGreek.{guild_id}
use greek_bot.MessageLog.Table.{MessageLog, register_log}
use greek_bot.MessageLog.Reports.{
  EditReport, process_msglog_message_update, Reporting, process_msglog_message_delete,
  DeletionEmbed,
}
use greek_bot.Leaderboard.Table.{Row}
use greek_bot.Leaderboard.Sync.{Request, keep, new_message}
use greek_bot.Starboard.Reactions.{
  World, Replies, Emoji, is_holy, reaction_add, reaction_remove, message_delete,
}
use greek_bot.BotEvents.Polls.{PollRequest, polls_reaction_add}

-- What the components store, and the channel #starboard.
pub record Tables : Type 0 where
  pub log : MessageLog
  pub ranks : List Row
  pub board : World

abbrev pub in_guild : Option ℕ → Bool
in_guild none = false
in_guild (some guild) = guild == guild_id

pub record NewMessage : Type 0 where
  pub message : ℕ
  pub channel : ℕ
  pub author : ℕ
  pub is_bot : Bool
  pub is_system : Bool
  pub content : List ℕ
  pub sent_at : ℕ
  pub roles : List ℕ

-- A repeated id leaves the log as it is, by an exception that is caught.
abbrev pub logged : NewMessage → MessageLog → MessageLog
logged m log = elim (register_log m.message m.channel m.author m.content log) [
  | none ↦ log
  | some log' ↦ log'
]

unfoldable pub on_message_create : Option ℕ → NewMessage → ℕ → Tables → Tables × Request
unfolding register_log new_message
on_message_create guild m draw t =
    let (ranks, request) = new_message m.author m.sent_at draw m.roles t.ranks in
    if in_guild guild && (not m.is_bot && not m.is_system)
    then (record t { log = logged m t.log; ranks = ranks }, request)
    else (t, keep)

-- `none` is a message whose content did not change.
unfoldable pub on_message_update :
    (ℕ → Option Bool) → Option ℕ → ℕ → Option (List ℕ) → Tables → Tables × Option EditReport
unfolding process_msglog_message_update
on_message_update answer guild message none t = (t, none)
on_message_update answer guild message (some content) t =
    let (log, report) = process_msglog_message_update answer message content t.log in
    if in_guild guild then (record t { log = log }, report) else (t, none)

module _ (answer : ℕ → Option Bool) (accepted : List DeletionEmbed → Bool)
    (members : List ℕ → Option (List ℕ)) (d : Replies) (guild : Option ℕ) where
  -- The report of the message log, if the messages are of the guild.
  unfoldable pub on_message_delete_bulk : List ℕ → Tables → Tables × Option Reporting
  unfolding process_msglog_message_delete message_delete
  on_message_delete_bulk ids t =
      let (log, reporting) = process_msglog_message_delete answer accepted members ids t.log in
      let (board, fine) = message_delete d ids t.board in
      if in_guild guild then (record t { log = log; board = board }, some reporting) else (t, none)

  unfoldable pub on_message_delete : ℕ → Tables → Tables × Option Reporting
  unfolding on_message_delete_bulk
  on_message_delete message t = on_message_delete_bulk (message ∷ []) t

unfoldable pub on_reaction_add :
    Replies
    → Option (List ℕ)
    → Bool
    → ℕ
    → Option ℕ
    → ℕ
    → ℕ
    → ℕ
    → Option ℕ
    → Option (List ℕ)
    → Emoji
    → Tables
    → Tables × List PollRequest
unfolding reaction_add polls_reaction_add
on_reaction_add d fetched deleted bot guild user channel message author member emoji t =
    let (board, fine) = reaction_add d bot user channel message author emoji t.board in
    let (requests, fine') = polls_reaction_add fetched deleted user channel message member in
    if in_guild guild then (record t { board = board }, requests) else (t, [])

unfoldable pub on_reaction_remove : Replies → ℕ → Option ℕ → ℕ → ℕ → ℕ → Emoji → Tables → Tables
unfolding reaction_remove
on_reaction_remove d bot guild user channel message emoji t =
    let (board, fine) = reaction_remove d bot user channel message emoji t.board in
    if in_guild guild then record t { board = board } else t

unfoldable pub on_reaction_remove_all : Replies → Option ℕ → ℕ → Tables → Tables
unfolding message_delete
on_reaction_remove_all d guild message t =
    let (board, fine) = message_delete d (message ∷ []) t.board in
    if in_guild guild then record t { board = board } else t

unfoldable pub on_reaction_remove_emoji : Replies → Option ℕ → ℕ → Emoji → Tables → Tables
unfolding message_delete is_holy
on_reaction_remove_emoji d guild message emoji t =
    let (board, fine) = message_delete d (message ∷ []) t.board in
    if in_guild guild && is_holy emoji then record t { board = board } else t
