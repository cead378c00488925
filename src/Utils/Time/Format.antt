-- ===== src/Utils/Time/Format.antt =====
-- `cUtils::FormatISOTimestamp` of Discord/Utils.h for times in microseconds and in nanoseconds, from the date and the
-- time of day that std::chrono finds.
use greek_bot.Prelude.{ℕ, ◌+◌, ◌/◌, ◌%◌, List, [], ◌∷◌}
use greek_bot.Utils.Time.Calendar.{Date, Clock}

-- `{:02}`, put before a text; `{:04}` and `{:06}` are pairs of digits.
abbrev pub tens : ℕ → ℕ
tens n = 48 + n / 10

abbrev pub units : ℕ → ℕ
units n = 48 + n % 10

abbrev pub two_digits : ℕ → List ℕ → List ℕ
two_digits n s = tens n ∷ units n ∷ s

abbrev pub format_decimals : ℕ → List ℕ
format_decimals us =
    46 ∷ two_digits (us / 10000) (two_digits (us / 100 % 100) (two_digits (us % 100) (90 ∷ [])))

abbrev pub format_time : Clock → ℕ → List ℕ
format_time c us =
    two_digits c.hours (58 ∷ two_digits c.minutes (58 ∷ two_digits c.seconds (format_decimals us)))

unfoldable pub format_iso_timestamp : Date → Clock → ℕ → List ℕ
format_iso_timestamp d c us = two_digits (d.year / 100) (
    two_digits (d.year % 100)
      (45 ∷ two_digits d.month (45 ∷ two_digits d.day (84 ∷ format_time c us))))

-- `{:09}` for a clock that counts finer than microseconds.
abbrev pub format_nanoseconds : ℕ → List ℕ
format_nanoseconds ns =
    46
    ∷ two_digits (ns / 10000000) (
        two_digits (ns / 100000 % 100)
          (two_digits (ns / 1000 % 100) (two_digits (ns / 10 % 100) (units ns ∷ 90 ∷ []))))

unfoldable pub format_iso_timestamp_fine : Date → Clock → ℕ → List ℕ
format_iso_timestamp_fine d c ns = two_digits (d.year / 100) (
    two_digits (d.year % 100) (
      45
      ∷ two_digits d.month (
          45
          ∷ two_digits d.day (
              84
              ∷ two_digits c.hours (
                  58 ∷ two_digits c.minutes (58 ∷ two_digits c.seconds (format_nanoseconds ns)))))))
