-- ===== src/Utils/Time/RoundTrip.antt =====
-- Parsing a formatted timestamp gives the time back, in whole milliseconds.
use greek_bot.Prelude.{
  ℕ, ◌+◌, ◌/◌, ◌%◌, ◌<◌, ◌≡◌, refl, arith, true, false, List, [], ◌∷◌, some, ltb, ◌∙◌, ap,
}
use greek_bot.Utils.Time.Calendar.{Date, Clock, ok, time_of, last_day}
use greek_bot.Utils.Time.Parse.{
  digit, two, four, parse_date, parse_clock, parse_time, parse_zone, parse_rest,
  parse_iso_timestamp, in_range, skip_digits, third_decimal, second_decimal, parse_decimals,
}
use greek_bot.Utils.Time.Format.{
  tens, units, format_decimals, format_time, format_iso_timestamp, two_digits,
}

digit-char : (d : ℕ) → d < 10 → digit (48 + d) ≡ some d
unfolding digit
digit-char d h = rw (below d h) (ap some (omega arith))
  where
    below : (d : ℕ) → d < 10 → ltb 9 ((48 + d + 208) % 256) ≡ false
    below d h = ground arith

digit-tens : (n : ℕ) → n < 100 → digit (tens n) ≡ some (n / 10)
digit-tens n h = digit-char (n / 10) (omega arith)

digit-units : (n : ℕ) → digit (units n) ≡ some (n % 10)
digit-units n = digit-char (n % 10) (omega arith)

two-digits : (n : ℕ) → n < 100 → two (tens n) (units n) ≡ some n
unfolding two
two-digits n h = rw (digit-tens n h, digit-units n) (ap some (omega arith))

four-digits :
    (y : ℕ)
    → y < 10000
    → four (tens (y / 100)) (units (y / 100)) (tens (y % 100)) (units (y % 100)) ≡ some y
unfolding four
four-digits y h =
    rw (two-digits (y / 100) (omega arith), two-digits (y % 100) (omega arith))
      (ap some (omega arith))

skip-zulu : skip_digits (90 ∷ []) ≡ 90 ∷ []
unfolding skip_digits digit
skip-zulu = refl

skip-digit : (c d : ℕ) (s : List ℕ) → digit c ≡ some d → skip_digits (c ∷ s) ≡ skip_digits s
unfolding skip_digits
skip-digit c d s h = rw (skip_digits, h) refl

skip-last : (n m : ℕ) → m < 100 → skip_digits (units n ∷ tens m ∷ units m ∷ 90 ∷ []) ≡ 90 ∷ []
skip-last n m h =
    skip-digit (units n) (n % 10) _ (digit-units n)
    ∙ skip-digit (tens m) (m / 10) _ (digit-tens m h)
    ∙ skip-digit (units m) (m % 10) _ (digit-units m)
    ∙ skip-zulu

parse-decimals :
    (us : ℕ) → us < 1000000 → parse_decimals (format_decimals us) ≡ (us / 1000, 90 ∷ [])
unfolding parse_decimals second_decimal third_decimal
parse-decimals us h =
    rw
      (
        digit-tens (us / 10000) (omega arith),
        second_decimal,
        digit-units (us / 10000),
        third_decimal,
        digit-tens (us / 100 % 100) (omega arith),
        skip-last (us / 100 % 100) (us % 100) (omega arith),
      )
      (ap (λ k. (k, 90 ∷ [])) (omega arith))

date-format :
    (d : Date) (s : List ℕ)
    → d.year < 10000
    → d.month < 100
    → d.day < 100
    → parse_date (
        two_digits
          (d.year / 100)
          (two_digits (d.year % 100) (45 ∷ two_digits d.month (45 ∷ two_digits d.day s))))
      ≡ some (record { date = d; extended_date = true; after_date = s })
unfolding parse_date
date-format d s hy hm hd =
    rw (four-digits d.year hy, two-digits d.month hm, two-digits d.day hd) refl

clock-format :
    (c : Clock) (s : List ℕ)
    → c.hours < 100
    → c.minutes < 100
    → c.seconds < 100
    → parse_clock true
        (two_digits c.hours (58 ∷ two_digits c.minutes (58 ∷ two_digits c.seconds s)))
      ≡ some c
unfolding parse_clock
clock-format c s hh hm hs =
    rw (two-digits c.hours hh, two-digits c.minutes hm, two-digits c.seconds hs) refl

time-format :
    (c : Clock) (us : ℕ)
    → c.hours < 100
    → c.minutes < 100
    → c.seconds < 100
    → us < 1000000
    → parse_time (format_time c us)
      ≡ some (record {
        clock = c;
        milliseconds = us / 1000;
        extended_time = true;
        after_time = 90 ∷ [];
      })
unfolding parse_time
time-format c us hh hm hs hu =
    rw (clock-format c (format_decimals us) hh hm hs, parse-decimals us hu) refl

ok_bounds : (d : Date) → ok d ≡ true → (d.month < 100) × (d.day < 100)
unfolding ok last_day
ok_bounds d h = (ground arith, ground arith)

in_range_bounds :
    (c : Clock) → in_range c ≡ true → (c.hours < 100) × (c.minutes < 100) × (c.seconds < 100)
unfolding in_range
in_range_bounds c h = (ground arith, ground arith, ground arith)

rest-format :
    (d : Date) (c : Clock) (us : ℕ)
    → c.hours < 100
    → c.minutes < 100
    → c.seconds < 100
    → us < 1000000
    → ok d ≡ true
    → in_range c ≡ true
    → parse_rest (record { date = d; extended_date = true; after_date = 84 ∷ format_time c us })
      ≡ some (time_of d c (us / 1000))
unfolding parse_rest parse_zone
rest-format d c us hh hm hs hu valid range =
    rw (valid, time-format c us hh hm hs hu, range) (ap some (omega arith))

-- `ParseISOTimestamp` reads what `FormatISOTimestamp` writes, for the days of the years 0 to 9999: it
-- gives the time back in whole milliseconds.
pub parse-format :
    (d : Date) (c : Clock) (us : ℕ)
    → d.year < 10000
    → ok d ≡ true
    → in_range c ≡ true
    → us < 1000000
    → parse_iso_timestamp (format_iso_timestamp d c us) ≡ some (time_of d c (us / 1000))
unfolding parse_iso_timestamp parse_rest parse_zone format_iso_timestamp
parse-format d c us hy valid range hu =
    let (hm, hd) = ok_bounds d valid in
    let (hh, hi, hs) = in_range_bounds c range in
    rw (date-format d (84 ∷ format_time c us) hy hm hd) (rest-format d c us hh hi hs hu valid range)
