-- ===== src/Infractions/Removal.antt =====
-- The components of the infractions in GreekBot/GreekBot_Infractions.cpp. Of the messages only the
-- embed's description and the components are kept; that the message has an embed with an author is
-- left aside.
use greek_bot.Prelude.{
  split_colon, ℕ, Bool, not, ◌&&◌, List, [], ◌∷◌, Option, none, some, ◌==◌, if◌then◌else◌, is_empty,
  codes, strip_prefix, ◌>>=◌,
}
use greek_bot.Utils.Snowflake.{Snowflake}
use greek_bot.Infractions.Table.{Infractions, delete}
use greek_bot.Infractions.Statistics.{Statistics, get_stats_by_user}
use greek_bot.Infractions.Panel.{
  Embed, no_infractions_found, all_infractions_removed, no_infractions_to_remove, statistics, Row,
  removal_buttons, restore, add_menu,
}

-- Whether Discord accepts the acknowledgement, the change of the member and the message, and the
-- database the commit.
pub record Answers : Type 0 where
  pub deferred : Bool
  pub modified : Bool
  pub edited : Bool
  pub committed : Bool

-- `updated` leaves out the embed where it stays as it was.
pub data Response : Type 0 where
  no_permission : Response
  only_your_own : Response
  failed : Response
  updated : Option Embed → List Row → Response
  timeout_removed : Response

unfoldable pub panel : List ℕ → Statistics → Response
unfolding removal_buttons
panel user stats =
    if is_empty stats.entries
    then updated (some no_infractions_found) []
    else updated (some (statistics stats)) (removal_buttons user ∷ [])

-- `process_infractions`; the user option may be missing.
unfoldable pub process_infractions :
    Answers → Bool → Snowflake → Option Snowflake → ℕ → Infractions → Response
unfolding panel get_stats_by_user
process_infractions d may_moderate invoker none now t =
    if d.deferred && d.edited
    then panel invoker.m_str (get_stats_by_user invoker.m_int now t)
    else failed
process_infractions d may_moderate invoker (some user) now t =
    if not may_moderate
    then only_your_own
    else if d.deferred && d.edited
    then panel user.m_str (get_stats_by_user user.m_int now t)
    else failed

unfoldable pub process_infractions_button :
    Answers → Bool → Snowflake → Snowflake → ℕ → Infractions → Response
unfolding panel get_stats_by_user
process_infractions_button d may_moderate invoker user now t =
    if not (invoker.m_int == user.m_int) && not may_moderate
    then only_your_own
    else if d.deferred && d.edited
    then panel user.m_str (get_stats_by_user user.m_int now t)
    else failed

-- What `fmt` asks for, with the parts that it is cut into.
pub data Removal : Type 0 where
  cancelled : List ℕ → Removal
  selected : List ℕ → Removal
  all_of : List ℕ → Removal
  undone : List ℕ → List ℕ → Removal
  choosing : List ℕ → Removal

abbrev pub undo_or_choose : List ℕ → Option (List ℕ × List ℕ) → Removal
undo_or_choose fmt none = choosing fmt
undo_or_choose fmt (some (user, time)) = undone user time

unfoldable pub parse_removal : List ℕ → Removal
unfolding strip_prefix split_colon
parse_removal fmt = elim (strip_prefix (codes "cancel:") fmt) [
  | some user ↦ cancelled user
  | none ↦ elim (strip_prefix (codes "menu:") fmt) [
    | some user ↦ selected user
    | none ↦ elim (strip_prefix (codes "all:") fmt) [
      | some user ↦ all_of user
      | none ↦ undo_or_choose fmt (strip_prefix (codes "undo:") fmt >>= split_colon)
    ]
  ]
]

-- `Delete`: no row has a negative time.
abbrev pub delete_at : ℕ → Option ℕ → Infractions → Infractions
delete_at user none t = t
delete_at user (some time) t = delete user time t

-- What is shown after an infraction was selected.
unfoldable pub after_selection : List ℕ → Statistics → List Row → Option Response
unfolding restore
after_selection user stats rows =
    if is_empty stats.entries
    then some (updated (some all_infractions_removed) [])
    else elim (restore user rows) [
      | none ↦ none
      | some rows' ↦ some (updated (some (statistics stats)) rows')
    ]

unfoldable pub choices : List ℕ → Statistics → List Row → Option Response
unfolding add_menu
choices user stats rows =
    if is_empty stats.entries
    then some (updated (some no_infractions_to_remove) [])
    else elim (add_menu user stats.entries rows) [
      | none ↦ none
      | some rows' ↦ some (updated (some (statistics stats)) rows')
    ]
