-- ===== src/Utils/Time/Calendar.antt =====
-- The days and times of std::chrono that the timestamps use. Years are not negative, and a time is a
-- number of milliseconds since the day before the year 0, so that a time zone can be subtracted.
use greek_bot.Prelude.{
  ℕ, zero, suc, ◌+◌, ◌-◌, ◌*◌, ◌/◌, ◌%◌, Bool, ◌&&◌, ◌||◌, not, ◌==◌, leb, if◌then◌else◌,
}

pub record Date : Type 0 where
  pub year : ℕ
  pub month : ℕ
  pub day : ℕ

pub record Clock : Type 0 where
  pub hours : ℕ
  pub minutes : ℕ
  pub seconds : ℕ

unfoldable pub is_leap : ℕ → Bool
is_leap y = (y % 4 == 0) && (not (y % 100 == 0) || (y % 400 == 0))

unfoldable pub last_day : ℕ → ℕ → ℕ
unfolding is_leap
last_day y m =
    if m == 2
    then if is_leap y then 29 else 28
    else if (m == 4) || (m == 6) || (m == 9) || (m == 11)
    then 30
    else 31

-- `year_month_day::ok`.
unfoldable pub ok : Date → Bool
unfolding last_day
ok d = leb 1 d.month && leb d.month 12 && leb 1 d.day && leb d.day (last_day d.year d.month)

-- The days of a year before a month.
unfoldable pub days_before : ℕ → ℕ → ℕ
unfolding last_day
days_before y zero = 0
days_before y (suc zero) = 0
days_before y (suc (suc m)) = days_before y (suc m) + last_day y (suc m)

-- `sys_days`, counted from the day before the year 0.
unfoldable pub sys_days : Date → ℕ
unfolding days_before
sys_days d =
    365 * d.year
    + (d.year + 3) / 4
    - (d.year + 99) / 100
    + (d.year + 399) / 400
    + days_before d.year d.month
    + d.day

unfoldable pub time_of : Date → Clock → ℕ → ℕ
unfolding sys_days
time_of d c milliseconds =
    sys_days d * 86400000 + c.hours * 3600000 + c.minutes * 60000 + c.seconds * 1000 + milliseconds
