-- ===== src/Infractions/Table.antt =====
-- Database/Infractions/Infractions.cpp over the table `infractions` of Database/query_init.sql, whose
-- key is the user with the time. Times are milliseconds; `none` is the exception that a repeated key
-- throws.
use greek_bot.Prelude.{
  ℕ, ◌-◌, Bool, true, false, not, ◌&&◌, ◌||◌, List, [], ◌∷◌, Option, none, some, ◌==◌, leb,
  if◌then◌else◌, is_empty,
}
use greek_bot.Messages.Deletion.{sort}

pub record Infraction : Type 0 where
  pub user_id : ℕ
  pub timestamp : ℕ
  pub timed_out : Bool
  pub reason : Option (List ℕ)

abbrev pub Infractions : Type 0
Infractions = List Infraction

unfoldable pub has_key : ℕ → ℕ → Infractions → Bool
has_key user time [] = false
has_key user time (r ∷ t) = ((r.user_id == user) && (r.timestamp == time)) || has_key user time t

-- The values that `QUERY_WARN_REGISTER` inserts.
abbrev pub new_row : ℕ → ℕ → List ℕ → Infraction
new_row user time reason = record {
  user_id = user;
  timestamp = time;
  timed_out = false;
  reason = if is_empty reason then none else some reason;
}

unfoldable pub register : ℕ → ℕ → List ℕ → Infractions → Option Infractions
unfolding has_key
register user time reason t =
    if has_key user time t then none else some (new_row user time reason ∷ t)

-- The times of the user's infractions that have not led to a timeout.
unfoldable pub pending : ℕ → Infractions → List ℕ
pending user [] = []
pending user (r ∷ t) =
    let rest = pending user t in
    if (r.user_id == user) && not r.timed_out then r.timestamp ∷ rest else rest

-- The second row in descending order, `LIMIT 1, 1`, with `LAG` for the row before it.
abbrev pub lag : List ℕ → Option ℕ
lag [] = none
lag (a ∷ []) = none
lag (a ∷ b ∷ ts) = some (a - b)

-- `none` for `milliseconds::max()`.
unfoldable pub get_recent_delta_time : ℕ → Infractions → Option ℕ
unfolding pending sort
get_recent_delta_time user t = lag (sort (pending user t))

unfoldable pub delete : ℕ → ℕ → Infractions → Infractions
delete user time [] = []
delete user time (r ∷ t) =
    let rest = delete user time t in
    if (r.user_id == user) && (r.timestamp == time) then rest else r ∷ rest

unfoldable pub delete_all : ℕ → Infractions → Infractions
delete_all user [] = []
delete_all user (r ∷ t) =
    let rest = delete_all user t in if r.user_id == user then rest else r ∷ rest

unfoldable pub time_out : ℕ → ℕ → Infractions → Infractions
time_out user now [] = []
time_out user now (r ∷ t) =
    let rest = time_out user now t in
    if (r.user_id == user) && leb r.timestamp now
    then record r { timed_out = true } ∷ rest
    else r ∷ rest
