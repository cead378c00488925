-- ===== src/Bans/Duration.antt =====
-- `parse_ban_duration` of GreekBot/GreekBot_Ban.cpp. Texts are lists of bytes. Times are nanoseconds,
-- and days are counted, since the day before the year 0.
use greek_bot.Prelude.{
  ℕ, zero, suc, ◌+◌, ◌-◌, ◌*◌, ◌/◌, ◌%◌, ◌^◌, ◌&&◌, ◌||◌, not, List, [], ◌∷◌, Option, none, some,
  ◌==◌, leb, if◌then◌else◌, length, is_empty, ◌>>=◌, ◌>>◌, guard,
}
use greek_bot.Utils.Time.Calendar.{Date, ok, sys_days}
use greek_bot.Utils.Digits.{Number, scan}

abbrev pub day_length : ℕ
day_length = 86400000000000

-- 1970-01-01.
abbrev pub epoch : ℕ
epoch = 719529

-- The time that a signed 64-bit number of nanoseconds since the epoch stands for, if x is the exact
-- one.
unfoldable pub wrap_time : ℕ → ℕ
wrap_time x = (x + 9 * 2 ^ 63 - epoch * day_length) % 2 ^ 64 + epoch * day_length - 2 ^ 63

-- `std::from_chars` for 32-bit unsigned numbers.
unfoldable pub from_chars : List ℕ → Option Number
unfolding scan
from_chars s =
    let number = scan 0 0 s in
    if (number.width == 0) || leb (2 ^ 32) number.value then none else some number

-- The days that a date starts at, after the year.
unfoldable pub parse_month_day : ℕ → List ℕ → Option ℕ
unfolding from_chars
parse_month_day year s = do
  month ← from_chars s
  after ← elim month.rest [ [] ↦ none | c ∷ after ↦ if c == 45 then some after else none ]
  guard (month.width == 2)
  day ← from_chars after
  guard ((length after == 2) && is_empty day.rest)
  let date : Date = record { year = year; month = month.value; day = day.value }
  guard (ok date)
  some (sys_days date)

-- The years, months, weeks and days that were read.
pub record Units : Type 0 where
  pub y : ℕ
  pub m : ℕ
  pub w : ℕ
  pub d : ℕ

abbrev pub no_units : Units
no_units = record { y = 0; m = 0; w = 0; d = 0 }

unfoldable pub set_unit : ℕ → ℕ → Units → Option Units
set_unit c value u =
    if (c == 121) && (u.y == 0)
    then some (record u { y = value })
    else if (c == 109) && (u.m == 0)
    then some (record u { m = value })
    else if (c == 119) && (u.w == 0)
    then some (record u { w = value })
    else if (c == 100) && (u.d == 0)
    then some (record u { d = value })
    else none

-- In seconds: a year of std::chrono is a mean year, and a month a twelfth of it.
abbrev pub seconds_of : Units → ℕ
seconds_of u = u.y * 31556952 + u.m * 2629746 + u.w * 604800 + u.d * 86400

abbrev pub ceil_days : ℕ → ℕ
ceil_days x = (x + (day_length - 1)) / day_length

-- `ceil<days>` of the time that is reached.
unfoldable pub time_reached : ℕ → Units → ℕ
unfolding wrap_time
time_reached now u = ceil_days (wrap_time (now + seconds_of u * 1000000000))

-- The loop over numbers and their units, with fuel for the characters that are left.
unfoldable pub parse_units : ℕ → ℕ → ℕ → List ℕ → Units → Option ℕ
unfolding from_chars set_unit time_reached
parse_units zero now value s u = none
parse_units (suc fuel) now value [] u = none
parse_units (suc fuel) now value (c ∷ s) u =
    let further =
      λ (number : Number) (v : Units). parse_units fuel now number.value number.rest v in
    do
      guard (not (value == 0))
      v ← set_unit c value u
      if is_empty s
          then some (time_reached now v)
          else (from_chars s >>= λ number. further number v)

unfoldable pub parse_ban_duration : ℕ → List ℕ → Option ℕ
unfolding from_chars parse_month_day parse_units
parse_ban_duration now s = do
  number ← from_chars s
  elim number.rest [
    | [] ↦ none
    | c ∷ after ↦
        if (c == 45) && (number.width == 4)
        then parse_month_day number.value after
        else parse_units (length s) now number.value (c ∷ after) no_units
  ]
