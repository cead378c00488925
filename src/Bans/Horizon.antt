-- ===== src/Bans/Horizon.antt =====
-- Which dates a ban may last to: times are nanoseconds in signed 64-bit numbers.
use greek_bot.Prelude.{
  ℕ, ◌+◌, ◌*◌, ◌^◌, ◌<◌, ◌≤◌, ◌≡◌, true, none, some, if◌then◌else◌, ltb, refl, arith, ap, ◌∙◌,
}
use greek_bot.Utils.Time.Calendar.{Date, ok, sys_days}
use greek_bot.Bans.Duration.{day_length, epoch, wrap_time}
use greek_bot.Bans.Dates.{format_date, parse_ban_duration-format_date}
use greek_bot.Bans.Commands.{expiry_of}

expiry_of-date :
    (now : ℕ) (d : Date)
    → d.year < 10000
    → ok d ≡ true
    → expiry_of now (format_date d)
      ≡ (if ltb now (wrap_time (sys_days d * day_length)) then some (some (sys_days d)) else none)
unfolding expiry_of
expiry_of-date now d lt h = rw (expiry_of, parse_ban_duration-format_date now d lt h) refl

wrap_time-near :
    (x : ℕ) → epoch * day_length ≤ x → x < epoch * day_length + 2 ^ 63 → wrap_time x ≡ x
unfolding wrap_time
wrap_time-near x ge lt = omega (arith, ge, lt)

wrap_time-far :
    (x : ℕ)
    → epoch * day_length + 2 ^ 63 ≤ x
    → x < epoch * day_length + 2 ^ 64
    → wrap_time x ≤ epoch * day_length
unfolding wrap_time
wrap_time-far x ge lt = omega (arith, ge, lt)

-- The last day that starts within the range: 2262-04-11.
abbrev pub last_day_in_range : ℕ
last_day_in_range = 826280

-- Of the dates that exist from 1970 on: until 2262-04-11 exactly those in the future are taken as the
-- end of a ban; from the day after until June of 2554 none is, although it is in the future.
pub expiry_of-format_date :
    (now : ℕ) (d : Date)
    → d.year < 10000
    → ok d ≡ true
    → epoch ≤ sys_days d
    → epoch * day_length ≤ now
    → (sys_days d ≤ last_day_in_range
        → expiry_of now (format_date d)
          ≡ (if ltb now (sys_days d * day_length) then some (some (sys_days d)) else none))
      × (last_day_in_range < sys_days d
          → sys_days d < 933000
          → expiry_of now (format_date d) ≡ none)
expiry_of-format_date now d lt h modern current = (
  λ near.
      expiry_of-date now d lt h
      ∙ ap (λ x. if ltb now x then some (some (sys_days d)) else none)
          (wrap_time-near (sys_days d * day_length) (omega arith) (omega arith)),
  λ far soon.
      expiry_of-date now d lt h
      ∙ refused (wrap_time-far (sys_days d * day_length) (omega arith) (omega arith)),
)
  where
    refused :
        wrap_time (sys_days d * day_length) ≤ epoch * day_length
        → (if ltb now (wrap_time (sys_days d * day_length)) then some (some (sys_days d)) else none)
          ≡ none
    refused le = ground (arith, le, current)
