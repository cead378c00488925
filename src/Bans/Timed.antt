-- ===== src/Bans/Timed.antt =====
-- `OnHeartbeat` of GreekBot/GreekBot_TimedActions.cpp: every few hours expired bans are lifted, and the
-- members of the guild are looked through. Discord's answers are arguments.
use greek_bot.Prelude.{
  ℕ, ◌-◌, ◌/◌, Bool, true, false, not, ◌&&◌, List, [], ◌∷◌, Option, none, some, ◌==◌, if◌then◌else◌,
  ltb, leb, is_empty, length, contains, filterb, suc,
}
use greek_bot.Bans.Duration.{day_length}
use greek_bot.Bans.Table.{TempBans, get_expired, remove_bans}
use greek_bot.Bans.Commands.{LiftAnswer, lifted, no_ban, lift_failed}

-- The users whose bans were lifted, and whether an exception other than Discord's ended the loop.
pub record Lifting : Type 0 where
  pub unbanned : List ℕ
  pub broken : Bool

-- The loop over the expired bans. After a ban was lifted a message is sent, whose own failure changes
-- nothing unless it ends the loop.
unfoldable pub lift_bans : (ℕ → LiftAnswer) → (ℕ → Bool) → List ℕ → Lifting
lift_bans answer logged [] = record { unbanned = []; broken = false }
lift_bans answer logged (user ∷ users) =
    let rest = lift_bans answer logged users in
    elim (answer user) [
      | lifted ↦
          if logged user
          then record rest { unbanned = user ∷ rest.unbanned }
          else record { unbanned = user ∷ []; broken = true }
      | no_ban ↦ rest
      | lift_failed ↦ record { unbanned = []; broken = true }
    ]

-- The requests that the loop sends: one for each expired ban, up to where it ends.
abbrev pub floor_days : ℕ → ℕ
floor_days now = now / day_length

unfoldable pub lift_expired : (ℕ → LiftAnswer) → (ℕ → Bool) → ℕ → TempBans → TempBans
unfolding lift_bans get_expired remove_bans
lift_expired answer logged now t =
    let done = lift_bans answer logged (get_expired (floor_days now) t) in
    if done.broken then t else remove_bans done.unbanned t

pub record GuildMember : Type 0 where
  pub member_id : ℕ
  pub joined_at : ℕ
  pub member_roles : List ℕ
  pub boosts : Bool
  pub manages_roles : Bool

pub data MemberRequest : Type 0 where
  kick : ℕ → MemberRequest
  set_roles : ℕ → List ℕ → MemberRequest

-- What is asked for a member, given the color roles of the boosters.
unfoldable pub member_request : List ℕ → ℕ → GuildMember → Option MemberRequest
member_request colors started_at m =
    let kept = filterb (λ r. not (contains colors r)) m.member_roles in
    if leb 2 (floor_days (started_at - m.joined_at)) && is_empty m.member_roles
    then some (kick m.member_id)
    else if not m.boosts && not m.manages_roles
    then if length m.member_roles == length kept then none else some (set_roles m.member_id kept)
    else none

-- The requests that are sent, and the number of members that were kicked.
pub record Pruned : Type 0 where
  pub requests : List MemberRequest
  pub total_pruned : ℕ

-- `accepted` tells whether the request lets the loop go on: a kick that fails ends it, and so does a
-- change of roles that fails with an exception other than Discord's.
unfoldable pub prune : List ℕ → ℕ → (MemberRequest → Bool) → List GuildMember → Pruned
unfolding member_request
prune colors started_at accepted [] = record { requests = []; total_pruned = 0 }
prune colors started_at accepted (m ∷ ms) =
    let rest = prune colors started_at accepted ms in
    elim (member_request colors started_at m) [
      | none ↦ rest
      | some r ↦
          if not (accepted r) then record { requests = r ∷ []; total_pruned = 0 } else record {
            requests = r ∷ rest.requests;
            total_pruned = elim r [
              | kick user ↦ suc rest.total_pruned
              | set_roles user roles ↦ rest.total_pruned
            ];
          }
    ]

-- `OnHeartbeat`, of what concerns the bans and the members: the time of the last run, in milliseconds,
-- and the table.
pub record Heartbeat : Type 0 where
  pub before : ℕ
  pub bans : TempBans
  pub sent : List MemberRequest

-- `now` and `steady_now` are the readings of the two clocks.
unfoldable pub on_heartbeat :
    List ℕ
    → (ℕ → LiftAnswer)
    → (ℕ → Bool)
    → (MemberRequest → Bool)
    → ℕ
    → ℕ
    → List GuildMember
    → Heartbeat
    → Heartbeat
unfolding lift_bans get_expired lift_expired prune
on_heartbeat colors answer logged accepted now steady_now members h =
    let done = lift_bans answer logged (get_expired (floor_days now) h.bans) in
    let after : Heartbeat = record h {
      before = steady_now;
      bans = lift_expired answer logged now h.bans;
      sent = if done.broken then h.sent else (prune colors now accepted members).requests;
    } in
    if ltb 10800000 (steady_now - h.before) then after else h
