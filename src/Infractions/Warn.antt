-- ===== src/Infractions/Warn.antt =====
-- `process_warn` and `process_warn_impl` of GreekBot/GreekBot_Infractions.cpp. Of the replies to the
-- user only their kind is kept.
use greek_bot.Prelude.{ℕ, ◌*◌, Bool, not, List, Option, none, some, ◌==◌, ltb, if◌then◌else◌}
use greek_bot.Infractions.Table.{Infractions, register, get_recent_delta_time, time_out}

abbrev pub days : ℕ → ℕ
days n = n * 86400000

-- `months(3)` of std::chrono, a month being a twelfth of a mean year.
abbrev pub three_months : ℕ
three_months = 3 * 2629746000

unfoldable pub timeout_days : ℕ → ℕ
timeout_days dt =
    if ltb dt (days 3) then 7 else if ltb dt (days 5) then 5 else if ltb dt (days 15) then 3 else 1

-- Whether Discord accepts the confirmation, and the timeout of the member.
pub record Replies : Type 0 where
  pub confirmed : Bool
  pub modified : Bool

-- What `process_warn_impl` does: an exception before anything is stored, the warning alone, an
-- exception after the warning, or the warning and a timeout.
pub data Outcome : Type 0 where
  failed : Outcome
  warned : Outcome
  timeout_failed : Outcome
  timed_out : ℕ → Outcome

-- The second transaction, for the time between the two most recent infractions.
unfoldable pub escalate : Replies → ℕ → ℕ → Option ℕ → Infractions → Infractions × Outcome
unfolding timeout_days
escalate d user now none t = (t, warned)
escalate d user now (some dt) t =
    if ltb dt three_months
    then if d.modified
      then (time_out user now t, timed_out (timeout_days dt))
      else (t, timeout_failed)
    else (t, warned)

-- `process_warn_impl`: what is not committed is rolled back.
unfoldable pub process_warn_impl : Replies → ℕ → ℕ → List ℕ → Infractions → Infractions × Outcome
unfolding escalate
process_warn_impl d user now reason t = elim (register user now reason t) [
  | none ↦ (t, failed)
  | some t' ↦
      if d.confirmed then escalate d user now (get_recent_delta_time user t') t' else (t, failed)
]

pub record Target : Type 0 where
  pub target_id : ℕ
  pub is_member : Bool
  pub is_bot : Bool
  pub is_moderator : Bool

pub record Invoker : Type 0 where
  pub invoker_id : ℕ
  pub may_moderate : Bool

pub data Reply : Type 0 where
  no_permission : Reply
  not_a_member : Reply
  not_this_bot : Reply
  not_yourself : Reply
  not_a_bot : Reply
  not_a_moderator : Reply
  modal : Reply
  outcome : Outcome → Reply

unfoldable pub warn_error : ℕ → ℕ → Target → Option Reply
warn_error bot invoker target =
    if not target.is_member
    then some not_a_member
    else if target.target_id == bot
    then some not_this_bot
    else if target.target_id == invoker
    then some not_yourself
    else if target.is_bot
    then some not_a_bot
    else if target.is_moderator
    then some not_a_moderator
    else none

-- `process_warn` for the command; `context_menu` has the reason asked for by a modal.
unfoldable pub process_warn :
    Replies → ℕ → Bool → Invoker → Target → ℕ → List ℕ → Infractions → Infractions × Reply
unfolding warn_error process_warn_impl
process_warn d bot context_menu by target now reason t =
    let (t', done) = process_warn_impl d target.target_id now reason t in
    if not by.may_moderate then (t, no_permission) else elim (warn_error bot by.invoker_id target) [
      | some reply ↦ (t, reply)
      | none ↦ if context_menu then (t, modal) else (t', outcome done)
    ]

-- `process_warn` for the modal, whose id holds the user.
unfoldable pub process_warn_modal :
    Replies → ℕ → Invoker → ℕ → ℕ → List ℕ → Infractions → Infractions × Reply
unfolding process_warn_impl
process_warn_modal d bot by user now reason t =
    let (t', done) = process_warn_impl d user now reason t in
    if not by.may_moderate
    then (t, no_permission)
    else if user == bot
    then (t, not_this_bot)
    else if user == by.invoker_id
    then (t, not_yourself)
    else (t', outcome done)
