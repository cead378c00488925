-- ===== src/MessageLog/Reports.antt =====
-- GreekBot/MessageLogging.cpp: what is reported of edited and deleted messages. Discord's answers are
-- arguments: `answer` tells whether there is a user, and is `none` for an exception other than
-- xDiscordError, which ends the handler. Of the embeds the message, its author and its texts are kept.
use greek_bot.Prelude.{
  ℕ, Bool, true, false, not, ◌||◌, List, [], ◌∷◌, ◌++◌, Option, none, some, if◌then◌else◌, ◌==◌,
  length, is_empty, map,
}
use greek_bot.Prelude.Table.{find}
use greek_bot.MessageLog.Table.{
  LoggedMessage, MessageLog, get_log, update_log, remaining_logs, deleted_logs,
}

-- The report of an edit: the old content, and the new one.
pub record EditReport : Type 0 where
  pub edited : ℕ
  pub edited_by : ℕ
  pub author_known : Bool
  pub old_content : Option (List ℕ)
  pub new_content : List ℕ

-- `process_msglog_message_update`: an edit of a message that is not logged is not reported.
unfoldable pub process_msglog_message_update :
    (ℕ → Option Bool) → ℕ → List ℕ → MessageLog → MessageLog × Option EditReport
unfolding get_log update_log
process_msglog_message_update answer msg content t = elim (get_log msg t) [
  | none ↦ (t, none)
  | some e ↦ elim (answer e.author_id) [
    | none ↦ (update_log msg content t, none)
    | some known ↦ (
      update_log msg content t,
      some (record {
        edited = msg;
        edited_by = e.author_id;
        author_known = known;
        old_content = e.text;
        new_content = content;
      }),
    )
  ]
]

-- The embed of a deleted message.
pub record DeletionEmbed : Type 0 where
  pub deleted_message : ℕ
  pub written_by : ℕ
  pub writer_known : Bool
  pub deleted_text : Option (List ℕ)

-- The state of the loop: the authors that were looked up, with whether they were found, the embeds
-- that wait, the messages that were sent, the users that were asked for, and whether an
-- exception ended it.
pub record Reporting : Type 0 where
  pub authors : List (ℕ × Bool)
  pub embeds : List DeletionEmbed
  pub sent : List (List DeletionEmbed)
  pub asked : List ℕ
  pub failed : Bool

abbrev pub starting : List ℕ → Reporting
starting found = record {
  authors = map (λ user. (user, true)) found;
  embeds = [];
  sent = [];
  asked = [];
  failed = false;
}

abbrev pub authors_of : MessageLog → List ℕ
authors_of t = map (λ row. row.1.author_id) t

-- The most embeds of a message.
abbrev pub embed_limit : ℕ
embed_limit = 10

abbrev pub embed_of : ℕ → LoggedMessage → Bool → DeletionEmbed
embed_of msg e known = record {
  deleted_message = msg;
  written_by = e.author_id;
  writer_known = known;
  deleted_text = e.text;
}

module _ (answer : ℕ → Option Bool) (accepted : List DeletionEmbed → Bool) where
  unfoldable pub send_embeds : Reporting → Reporting
  send_embeds r = record r {
    sent = r.sent ++ (r.embeds ∷ []);
    embeds = [];
    failed = not (accepted r.embeds);
  }

  -- The search for the author, who is asked for if they were not before.
  unfoldable pub look_up : ℕ → Reporting → Reporting × Bool
  look_up author r = elim (find author r.authors) [
    | some known ↦ (r, known)
    | none ↦ elim (answer author) [
      | none ↦ (record r { asked = r.asked ++ (author ∷ []); failed = true }, false)
      | some known ↦ (
        record r {
          authors = r.authors ++ ((author, known) ∷ []);
          asked = r.asked ++ (author ∷ []);
        },
        known,
      )
    ]
  ]

  unfoldable pub report_one : ℕ → LoggedMessage → Reporting → Reporting
  unfolding look_up send_embeds
  report_one msg e r =
      let (looked, known) = look_up e.author_id r in
      let added = record looked { embeds = looked.embeds ++ (embed_of msg e known ∷ []) } in
      if looked.failed
      then looked
      else if length added.embeds == embed_limit
      then send_embeds added
      else added

  -- An exception ends the loop.
  unfoldable pub report_all : MessageLog → Reporting → Reporting
  unfolding report_one
  report_all [] r = r
  report_all ((msg, e) ∷ t) r =
      let rest = report_all t (report_one msg e r) in if r.failed then r else rest

  unfoldable pub report_rest : Reporting → Reporting
  unfolding send_embeds
  report_rest r = if r.failed || is_empty r.embeds then r else send_embeds r

  -- `process_msglog_message_delete`. The members of the guild among the authors are known from the
  -- start, unless the request for them ends in an exception, `none`: the rows are deleted by then.
  unfoldable pub process_msglog_message_delete :
      (List ℕ → Option (List ℕ)) → List ℕ → MessageLog → MessageLog × Reporting
  unfolding report_all report_rest deleted_logs remaining_logs
  process_msglog_message_delete members ids t =
      let deleted = deleted_logs ids t in
      elim (members (authors_of deleted)) [
        | none ↦ (remaining_logs ids t, record (starting []) { failed = true })
        | some found ↦ (remaining_logs ids t, report_rest (report_all deleted (starting found)))
      ]
