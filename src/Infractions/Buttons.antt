-- ===== src/Infractions/Buttons.antt =====
-- `process_infractions_remove` and `process_timeout_remove` of GreekBot/GreekBot_Infractions.cpp.
use greek_bot.Prelude.{
  ℕ, Bool, not, ◌&&◌, List, [], Option, none, some, if◌then◌else◌, ◌>>=◌, false, true,
}
use greek_bot.Utils.Snowflake.{from_text, parse_milliseconds}
use greek_bot.Infractions.Table.{Infractions, delete_all}
use greek_bot.Infractions.Statistics.{get_stats_by_user}
use greek_bot.Infractions.Panel.{all_infractions_removed, infraction_removed, Row, restore}
use greek_bot.Infractions.Removal.{
  Answers, Response, no_permission, failed, updated, timeout_removed, Removal, cancelled, selected,
  all_of, undone, choosing, parse_removal, delete_at, after_selection, choices,
}

-- The transaction for one of the requests: the table and the response before the message is edited,
-- or `none` for an exception. `value` is the value that was selected in a menu.
unfoldable pub carry_out :
    ℕ → List ℕ → List Row → Infractions → Removal → Option (Infractions × Response)
unfolding after_selection choices
carry_out now value rows t (cancelled user) = none
carry_out now value rows t (selected user) = do
  id ← from_text user
  time ← parse_milliseconds value
  let t' : Infractions = delete_at id.m_int time t
  response ← after_selection id.m_str (get_stats_by_user id.m_int now t') rows
  some (t', response)
carry_out now value rows t (all_of user) = do
  id ← from_text user
  some (delete_all id.m_int t, updated (some all_infractions_removed) [])
carry_out now value rows t (undone user text) = do
  id ← from_text user
  time ← parse_milliseconds text
  some (delete_at id.m_int time t, updated (some infraction_removed) [])
carry_out now value rows t (choosing user) = do
  id ← from_text user
  response ← choices id.m_str (get_stats_by_user id.m_int now t) rows
  some (t, response)

-- The table, and what the message shows. Without the edit of the message or the commit the transaction is
-- rolled back; the edit comes first, and stays if the commit fails.
unfoldable pub conclude :
    Answers → Infractions → Option (Infractions × Response) → Infractions × Response
conclude d t none = (t, failed)
conclude d t (some (t', response)) =
    if d.deferred && d.edited then (if d.committed then t' else t, response) else (t, failed)

-- The `Cancel` button does without the database.
unfoldable pub cancel_removal : Answers → List ℕ → List Row → Response
unfolding restore
cancel_removal d user rows = elim (restore user rows) [
  | none ↦ failed
  | some rows' ↦ if d.edited then updated none rows' else failed
]

unfoldable pub remove_as :
    Answers → ℕ → List ℕ → List Row → Infractions → Removal → Infractions × Response
unfolding carry_out conclude cancel_removal
remove_as d now value rows t (cancelled user) = (t, cancel_removal d user rows)
remove_as d now value rows t removal = conclude d t (carry_out now value rows t removal)

unfoldable pub process_infractions_remove :
    Answers → Bool → ℕ → List ℕ → List ℕ → List Row → Infractions → Infractions × Response
unfolding remove_as parse_removal
process_infractions_remove d may_moderate now fmt value rows t =
    if not may_moderate
    then (t, no_permission)
    else remove_as d now value rows t (parse_removal fmt)

-- Whether the timeout of the member was taken away, and the response.
unfoldable pub process_timeout_remove : Answers → Bool → Bool × Response
process_timeout_remove d may_moderate =
    if not may_moderate
    then (false, no_permission)
    else if d.modified
    then (true, if d.edited then timeout_removed else failed)
    else (false, failed)
