-- ===== src/Bans/Dates.antt =====
-- The dates that the bans take, and the times that they cannot.
use greek_bot.Prelude.{
  ℕ, ◌+◌, ◌-◌, ◌*◌, ◌/◌, ◌%◌, ◌^◌, ◌≡◌, ◌<◌, true, false, List, [], ◌∷◌, none, some, refl, arith,
  suc, leb, if◌then◌else◌, ◌||◌, ◌==◌, ◌∙◌, ap,
}
use greek_bot.Utils.Time.Calendar.{Date, ok, sys_days, last_day}
use greek_bot.Utils.Time.Format.{two_digits, tens, units}
use greek_bot.Utils.Digits.{Number, scan, is_digit}
use greek_bot.Bans.Duration.{epoch, from_chars, parse_month_day, parse_ban_duration}

-- `YYYY-MM-DD`.
abbrev pub format_date : Date → List ℕ
format_date d =
    two_digits (d.year / 100)
      (two_digits (d.year % 100) (45 ∷ two_digits d.month (45 ∷ two_digits d.day [])))

epoch_lem : sys_days (record { year = 1970; month = 1; day = 1 }) ≡ epoch
unfolding sys_days
epoch_lem = refl

tens_digit : (n : ℕ) → n < 100 → is_digit (tens n) ≡ true
tens_digit n lt = ground (arith, lt)

units_digit : (n : ℕ) → is_digit (units n) ≡ true
units_digit n = ground arith

scan-two :
    (n value width : ℕ) (s : List ℕ)
    → n < 100
    → scan value width (two_digits n s) ≡ scan (100 * value + n) (suc (suc width)) s
unfolding scan
scan-two n value width s lt =
    rw (tens_digit n lt, units_digit n) (ap (λ v. scan v (suc (suc width)) s) (joined value n))
  where
    joined : (value n : ℕ) → 10 * (10 * value + (tens n - 48)) + (units n - 48) ≡ 100 * value + n
    joined value n = omega arith

-- What `from_chars` gives if the digits scan to a small number.
from_chars-scan :
    (s : List ℕ) (n width : ℕ) (rest : List ℕ)
    → scan 0 0 s ≡ record { value = n; width = suc width; rest = rest }
    → n < 10000
    → from_chars s ≡ some (record { value = n; width = suc width; rest = rest })
unfolding from_chars
from_chars-scan s n width rest scanned lt =
    ap
      (λ (number : Number).
        if (number.width == 0) || leb (2 ^ 32) number.value then none else some number)
      scanned
    ∙ rw (small n lt) (ground arith)
  where
    small : (n : ℕ) → n < 10000 → leb 4294967296 n ≡ false
    small n lt = ground (arith, lt)

from_chars-two :
    (n : ℕ) (s : List ℕ)
    → n < 100
    → scan n 2 s ≡ record { value = n; width = 2; rest = s }
    → from_chars (two_digits n s) ≡ some (record { value = n; width = 2; rest = s })
from_chars-two n s lt stops =
    from_chars-scan (two_digits n s) n 1 s
      (scan-two n 0 0 s lt ∙ ap (λ v. scan v 2 s) (start n) ∙ stops) (omega arith)
  where
    start : (n : ℕ) → 100 * 0 + n ≡ n
    start n = omega arith

from_chars-year :
    (y : ℕ) (s : List ℕ)
    → y < 10000
    → from_chars (two_digits (y / 100) (two_digits (y % 100) (45 ∷ s)))
      ≡ some (record { value = y; width = 4; rest = 45 ∷ s })
unfolding scan
from_chars-year y s lt =
    from_chars-scan _ y 3 (45 ∷ s)
      (scan-two (y / 100) 0 0 (two_digits (y % 100) (45 ∷ s)) (omega arith)
        ∙ scan-two (y % 100) (100 * 0 + y / 100) 2 (45 ∷ s) (omega arith)
        ∙ ap (λ v. record { value = v; width = 4; rest = 45 ∷ s }) (joined y))
      lt
  where
    joined : (y : ℕ) → 100 * (100 * 0 + y / 100) + y % 100 ≡ y
    joined y = omega arith

in_range : (d : Date) → ok d ≡ true → (d.month < 100) × (d.day < 100)
unfolding ok last_day
in_range d h = ground (arith, h)

parse_month_day-format :
    (d : Date)
    → ok d ≡ true
    → parse_month_day d.year (two_digits d.month (45 ∷ two_digits d.day [])) ≡ some (sys_days d)
unfolding parse_month_day scan
parse_month_day-format d h =
    let (month, day) = in_range d h in
    rw
      (
        parse_month_day,
        from_chars-two d.month (45 ∷ two_digits d.day []) month refl,
        from_chars-two d.day [] day refl,
        h,
      )
      refl

-- A date of the years 0 to 9999 that exists is read as it was written.
pub parse_ban_duration-format_date :
    (now : ℕ) (d : Date)
    → d.year < 10000
    → ok d ≡ true
    → parse_ban_duration now (format_date d) ≡ some (sys_days d)
unfolding parse_ban_duration
parse_ban_duration-format_date now d lt h =
    rw
      (
        parse_ban_duration,
        from_chars-year d.year (two_digits d.month (45 ∷ two_digits d.day [])) lt,
      )
      (parse_month_day-format d h)
