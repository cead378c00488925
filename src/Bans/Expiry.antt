-- ===== src/Bans/Expiry.antt =====
-- From the ban to its end.
use greek_bot.Prelude.{
  ℕ, ◌≡◌, ◌≢◌, ◌&&◌, List, contains, refl, arith, Option-cases, inl, inr, ap, ◌∙◌, if-holds, true,
  none, [], ◌∷◌, Option, some, sym, some_inj, Bool-cases, ltb, ltb→lt, ◌<◌, ◌*◌,
}
use greek_bot.Bans.Duration.{parse_ban_duration, wrap_time, day_length}
use greek_bot.Prelude.Table.{IsKeyed, find}
use greek_bot.Bans.Table.{
  find-register_ban, register_ban-IsKeyed, TempBans, register_ban, get_expired, get_expired_lem,
  has_expired, TempBans, register_ban-IsKeyed,
}
use greek_bot.Bans.Commands.{
  missing_permission, not_banning_myself, ban_of, ban_texts, Subcommand, BanOptions, BanAnswers,
  BanResult, Ban, missing_permission, not_banning_myself, invalid_format, ban_modal, ban_failed,
  ban_made, expiry_of, process_ban,
}

-- The expiry that a format asks for: none if it is empty, and otherwise the day that it is parsed to,
-- which is in the future.
unfoldable pub Requested : ℕ → List ℕ → Option ℕ → Type 0
Requested now [] u = u ≡ none
Requested now (c ∷ s) u =
    (day : ℕ) × (parse_ban_duration now (c ∷ s) ≡ some day)
    × (u ≡ some day)
    × (now < wrap_time (day * day_length))

expiry_of-Requested :
    (now : ℕ) (s : List ℕ) (expiry : Option ℕ)
    → expiry_of now s ≡ some expiry
    → Requested now s expiry
unfolding expiry_of Requested
expiry_of-Requested now [] expiry p = sym (some_inj p)
expiry_of-Requested now (c ∷ s) expiry p = elim (Option-cases (parse_ban_duration now (c ∷ s))) [
  | inl unread ↦ absurd (cc (rw (expiry_of, unread) at p))
  | inr (day, q) ↦ elim (Bool-cases (ltb now (wrap_time (day * day_length)))) [
    | inl future ↦ (day, q, sym (some_inj (rw (expiry_of, q, future) at p)), ltb→lt now _ future)
    | inr past ↦ absurd (cc (rw (expiry_of, q, past) at p))
  ]
]

future_ltb : (a b : ℕ) → a < b → ltb a b ≡ true
future_ltb a b lt = ground (arith, lt)

expiry_of-invalid :
    (now : ℕ) (s : List ℕ) → expiry_of now s ≡ none → (u : Option ℕ) → ¬ Requested now s u
unfolding expiry_of Requested
expiry_of-invalid now [] p u h = cc
expiry_of-invalid now (c ∷ s) p u (day, q, e, lt) =
    cc (rw (expiry_of, q, future_ltb now (wrap_time (day * day_length)) lt) at p)

-- The table and the result of a ban, for each result: a ban that was made is registered with the expiry
-- that was asked for, a format is invalid only if it asks for none, and in all other cases nothing
-- changes.
unfoldable pub IsBanned : ℕ → List ℕ → ℕ → TempBans → TempBans → BanResult → Type 0
IsBanned now format user t t' (ban_made b) =
    (b.banned_user ≡ user)
    × Requested now format b.until
    × IsKeyed t'
    × ((today : ℕ) → contains (get_expired today t') user ≡ has_expired today b.until)
    × ((other : ℕ) → other ≢ user → find other t' ≡ find other t)
IsBanned now format user t t' missing_permission = t' ≡ t
IsBanned now format user t t' (not_banning_myself sc) = t' ≡ t
IsBanned now format user t t' invalid_format =
    (t' ≡ t) × ((u : Option ℕ) → ¬ Requested now format u)
IsBanned now format user t t' ban_modal = t' ≡ t
IsBanned now format user t t' ban_failed = t' ≡ t

registered-IsBanned :
    (now : ℕ) (format : List ℕ) (b : Ban) (t : TempBans)
    → IsKeyed t
    → Requested now format b.until
    → IsBanned now format b.banned_user t (register_ban b.banned_user b.until t) (ban_made b)
unfolding IsBanned
registered-IsBanned now format b t v requested = (
  refl,
  requested,
  register_ban-IsKeyed b.banned_user b.until t v,
  λ today.
      get_expired_lem b.banned_user today (register_ban b.banned_user b.until t)
        (register_ban-IsKeyed b.banned_user b.until t v)
      ∙ ap (has_expired today)
          (find-register_ban b.banned_user b.banned_user b.until t ∙ ground arith),
  λ other apart. find-register_ban other b.banned_user b.until t ∙ ground (arith, apart),
)

-- A ban that Discord makes is registered with the expiry that its format asks for, so that the heartbeat
-- asks to lift it from the day of the expiry on, and never if the format is empty; the bans of others
-- stay as they are. A format is refused only if it is not empty and is not parsed to a day in the
-- future. Where no ban is made nothing changes.
pub process_ban-IsBanned :
    (now : ℕ) (turk greek : List ℕ) (answers : BanAnswers) (sc : Subcommand) (user : ℕ)
    (o : BanOptions) (t : TempBans)
    → IsKeyed t
    → IsBanned now o.expiry_format user t
        (process_ban now turk greek answers sc user o t).0
        (process_ban now turk greek answers sc user o t).1
unfolding process_ban IsBanned
process_ban-IsBanned now turk greek answers sc user o t v =
    elim (Option-cases (expiry_of now o.expiry_format)) [
      | inl invalid ↦
          rw (process_ban, invalid) (refl, expiry_of-invalid now o.expiry_format invalid)
      | inr (expiry, valid) ↦
          rw (process_ban, valid)
            (if-holds (λ (r : TempBans × BanResult). IsBanned now o.expiry_format user t r.0 r.1)
              (answers.deferred && answers.banned) _ _
              (λ made.
                registered-IsBanned now o.expiry_format
                  (ban_of answers.messaged user o.delete_hours expiry (ban_texts turk greek sc o)) t
                  v (expiry_of-Requested now o.expiry_format expiry valid))
              (λ failed. refl))
    ]
