-- ===== src/Infractions/Escalation.antt =====
-- Warnings lead to timeouts, and each warning is counted for one timeout at most.
use greek_bot.Prelude.{
  ℕ, ◌≤◌, ◌≡◌, refl, sym, ap, ◌∙◌, Bool, true, false, not, List, [], ◌∷◌, Option, none, some, ◌==◌,
  ltb, leb, Bool-cases, Option-cases, inl, inr, arith, All, subst, filterb, some_inj, ◌≢◌, ==_refl,
}
use greek_bot.Messages.Deletion.{sort, insert}
use greek_bot.Infractions.Table.{
  Infraction, Infractions, register, pending, lag, get_recent_delta_time, time_out, has_key,
  new_row,
}
use greek_bot.Infractions.Warn.{
  three_months, timeout_days, Replies, Outcome, warned, timed_out, escalate, process_warn_impl,
  process_warn, Invoker, Target, warn_error,
}

-- Warnings in quicker succession never give a shorter timeout, which is from 1 to 7 days.
timeout_days_monotone :
    (dt dt' : ℕ)
    → dt ≤ dt'
    → (timeout_days dt' ≤ timeout_days dt) × (1 ≤ timeout_days dt') × (timeout_days dt ≤ 7)
unfolding timeout_days
timeout_days_monotone dt dt' le = (ground arith, ground arith, ground arith)

-- No infraction of the user is later than a time.
abbrev pub IsUpTo : ℕ → ℕ → Infractions → Type 0
IsUpTo user now t = All (λ (r : Infraction). (r.user_id == user) ≡ true → r.timestamp ≤ now) t

le-leb : (a b : ℕ) → a ≤ b → leb a b ≡ true
le-leb a b h = ground arith

none_pending :
    (user now : ℕ) (t : Infractions) → IsUpTo user now t → pending user (time_out user now t) ≡ []
unfolding pending time_out
none_pending user now [] u = refl
none_pending user now (r ∷ t) (p, u) = elim (Bool-cases (r.user_id == user)) [
  | inl own ↦ rw (own, le-leb r.timestamp now (p own)) (rw own (none_pending user now t u))
  | inr other ↦ rw (other) (rw (other) (none_pending user now t u))
]

-- The infractions of the other users.
abbrev pub of_others : ℕ → Infractions → Infractions
of_others user = filterb λ (r : Infraction). not (r.user_id == user)

time_out_others :
    (user now : ℕ) (t : Infractions) → of_others user (time_out user now t) ≡ of_others user t
unfolding time_out
time_out_others user now [] = refl
time_out_others user now (r ∷ t) = elim (Bool-cases (r.user_id == user)) [
  | inl own ↦ elim (Bool-cases (leb r.timestamp now)) [
    | inl past ↦ rw (own, past) (rw own (time_out_others user now t))
    | inr future ↦ rw (own, future) (rw own (time_out_others user now t))
  ]
  | inr other ↦ rw other (rw other (ap (λ x. r ∷ x) (time_out_others user now t)))
]

-- A registered warning is a new row.
registered :
    (user now : ℕ) (reason : List ℕ) (t t' : Infractions)
    → register user now reason t ≡ some t'
    → t' ≡ new_row user now reason ∷ t
unfolding register
registered user now reason t t' q = elim (Bool-cases (has_key user now t)) [
  | inl taken ↦ absurd (ground (arith, q, taken))
  | inr free ↦ some_inj (sym q ∙ rw free refl)
]

new_row_others :
    (user now : ℕ) (reason : List ℕ) (t : Infractions)
    → of_others user (new_row user now reason ∷ t) ≡ of_others user t
new_row_others user now reason t = rw (==_refl user) refl

escalate_resets :
    (d : Replies) (user now n : ℕ) (delta : Option ℕ) (t : Infractions)
    → IsUpTo user now t
    → (escalate d user now delta t).1 ≡ timed_out n
    → (pending user (escalate d user now delta t).0 ≡ [])
      × (of_others user (escalate d user now delta t).0 ≡ of_others user t)
unfolding escalate
escalate_resets d user now n none t u h = absurd (ground (arith, h))
escalate_resets d user now n (some dt) t u h = elim (Bool-cases (ltb dt three_months)) [
  | inr long ↦ absurd (ground (arith, h, long))
  | inl short ↦ elim (Bool-cases d.modified) [
    | inr refused ↦ absurd (ground (arith, h, short, refused))
    | inl accepted ↦ rw (short, accepted) (none_pending user now t u, time_out_others user now t)
  ]
]

-- If none of the user's infractions is later than the warning, then after a warning that led to a
-- timeout none of them counts for a further one: only two further warnings can lead to the next
-- timeout. The infractions of the others stay.
pub process_warn_impl_resets :
    (d : Replies) (user now : ℕ) (reason : List ℕ) (t : Infractions) (n : ℕ)
    → IsUpTo user now t
    → (process_warn_impl d user now reason t).1 ≡ timed_out n
    → (pending user (process_warn_impl d user now reason t).0 ≡ [])
      × (of_others user (process_warn_impl d user now reason t).0 ≡ of_others user t)
unfolding process_warn_impl
process_warn_impl_resets d user now reason t n u h =
    elim (Option-cases (register user now reason t)) [
      | inl refused ↦ absurd (ground (arith, h, refused))
      | inr (t', q) ↦ elim (Bool-cases d.confirmed) [
        | inr refused ↦ absurd (ground (arith, h, q, refused))
        | inl accepted ↦
            let row = registered user now reason t t' q in
            let whole : process_warn_impl d user now reason t
                ≡ escalate d user now (get_recent_delta_time user t') t' =
              rw (process_warn_impl, q, accepted) refl in
            let (none_left, others) =
              escalate_resets d user now n (get_recent_delta_time user t') t'
                (subst (IsUpTo user now) (sym row) ((λ p. omega arith), u))
                (sym (ap (λ x. x.1) whole) ∙ h) in
            subst
              (λ (x : Infractions × Outcome).
                (pending user x.0 ≡ []) × (of_others user x.0 ≡ of_others user t))
              (sym whole)
              (none_left, others ∙ ap (of_others user) row ∙ new_row_others user now reason t)
      ]
    ]

free_register :
    (user now : ℕ) (reason : List ℕ) (t : Infractions)
    → has_key user now t ≡ false
    → register user now reason t ≡ some (new_row user now reason ∷ t)
unfolding register
free_register user now reason t free = rw free refl

only_pending :
    (user now : ℕ) (reason : List ℕ) (t : Infractions)
    → pending user t ≡ []
    → pending user (new_row user now reason ∷ t) ≡ now ∷ []
unfolding pending
only_pending user now reason t none_before = rw (==_refl user, none_before) refl

no_delta :
    (user now : ℕ) (reason : List ℕ) (t : Infractions)
    → pending user t ≡ []
    → get_recent_delta_time user (new_row user now reason ∷ t) ≡ none
unfolding get_recent_delta_time sort insert
no_delta user now reason t none_before =
    ap (λ ts. lag (sort ts)) (only_pending user now reason t none_before)

-- A user without infractions that count, and none at the time of the warning, is warned but not
-- timed out, if the confirmation can be sent.
first_warning :
    (d : Replies) (user now : ℕ) (reason : List ℕ) (t : Infractions)
    → pending user t ≡ []
    → has_key user now t ≡ false
    → d.confirmed ≡ true
    → process_warn_impl d user now reason t ≡ (new_row user now reason ∷ t, warned)
unfolding process_warn_impl escalate
first_warning d user now reason t none_before free accepted =
    rw
      (
        process_warn_impl,
        free_register user now reason t free,
        accepted,
        no_delta user now reason t none_before,
      )
      refl

warn_error-none :
    (bot invoker : ℕ) (target : Target)
    → warn_error bot invoker target ≡ none
    → (target.is_member ≡ true)
      × (target.target_id ≢ bot)
      × (target.target_id ≢ invoker)
      × (target.is_bot ≡ false)
      × (target.is_moderator ≡ false)
unfolding warn_error
warn_error-none bot invoker target h =
    (ground arith, (λ p. ground arith), (λ p. ground arith), ground arith, ground arith)

-- The command changes the table only if a moderator invoked it, not from the context menu, for a
-- member who is neither this bot, nor the invoking user, nor another bot, nor a moderator.
process_warn_guarded :
    (d : Replies) (bot : ℕ) (context_menu : Bool) (by : Invoker) (target : Target) (now : ℕ)
    (reason : List ℕ) (t : Infractions)
    → (process_warn d bot context_menu by target now reason t).0 ≢ t
    → (by.may_moderate ≡ true)
      × (context_menu ≡ false)
      × (target.is_member ≡ true)
      × (target.target_id ≢ bot)
      × (target.target_id ≢ by.invoker_id)
      × (target.is_bot ≡ false)
      × (target.is_moderator ≡ false)
unfolding process_warn
process_warn_guarded d bot context_menu by target now reason t changed =
    elim (Bool-cases by.may_moderate) [
      | inr no_right ↦ absurd (changed (rw no_right refl))
      | inl right ↦ elim (Option-cases (warn_error bot by.invoker_id target)) [
        | inr (reply, q) ↦ absurd (changed (rw (right, process_warn, q) refl))
        | inl q ↦ elim (Bool-cases context_menu) [
          | inl menu ↦ absurd (changed (rw (right, process_warn, q, menu) refl))
          | inr command ↦
              let (member, other, another, human, plain) =
                warn_error-none bot by.invoker_id target q in
              (right, command, member, other, another, human, plain)
        ]
      ]
    ]
