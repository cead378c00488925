-- ===== src/Utils/Time/Parse.antt =====
-- `cUtils::ParseISOTimestamp` of Discord/Utils/Utils.cpp. A text is a list of bytes; `none` is the
-- exception.
use greek_bot.Prelude.{
  ℕ, ◌+◌, ◌-◌, ◌*◌, ◌%◌, Bool, false, ◌&&◌, ◌||◌, not, List, [], ◌∷◌, Option, none, some, ◌==◌, ltb,
  leb, if◌then◌else◌, get_or, drop, length, is_empty, ◌>>=◌, ◌>>◌, guard,
}
use greek_bot.Utils.Time.Calendar.{Date, Clock, ok, time_of}

abbrev pub at : List ℕ → ℕ → ℕ
at s i = get_or s i 0

-- `(d = c - '0') > 9` on 8-bit numbers.
unfoldable pub digit : ℕ → Option ℕ
digit c = let d = (c + 208) % 256 in if ltb 9 d then none else some d

unfoldable pub two : ℕ → ℕ → Option ℕ
two c d = do a ← digit c; b ← digit d; some (10 * a + b)

unfoldable pub four : ℕ → ℕ → ℕ → ℕ → Option ℕ
four c d e f = do a ← two c d; b ← two e f; some (100 * a + b)

pub record Dated : Type 0 where
  pub date : Date
  pub extended_date : Bool
  pub after_date : List ℕ

unfoldable pub parse_date : List ℕ → Option Dated
parse_date s = do
  year ← four (at s 0) (at s 1) (at s 2) (at s 3)
  let extended = at s 4 == 45
  month ← if extended then two (at s 5) (at s 6) else two (at s 4) (at s 5)
  day ← if extended then two (at s 8) (at s 9) else two (at s 6) (at s 7)
  guard (not extended || (at s 7 == 45))
  some (record {
    date = record { year = year; month = month; day = day };
    extended_date = extended;
    after_date = if extended then drop 10 s else drop 8 s;
  })

-- Any digits after the third decimal.
unfoldable pub skip_digits : List ℕ → List ℕ
skip_digits [] = []
skip_digits (c ∷ s) = let rest = skip_digits s in elim (digit c) [ none ↦ c ∷ s | some d ↦ rest ]

unfoldable pub third_decimal : ℕ → List ℕ → ℕ × List ℕ
third_decimal n [] = (n, [])
third_decimal n (c ∷ s) =
    let rest = skip_digits s in elim (digit c) [ none ↦ (n, c ∷ s) | some d ↦ (n + d, rest) ]

unfoldable pub second_decimal : ℕ → List ℕ → ℕ × List ℕ
second_decimal n [] = (n, [])
second_decimal n (c ∷ s) = elim (digit c) [
  | none ↦ (n, c ∷ s)
  | some d ↦ third_decimal (n + 10 * d) s
]

-- The decimals of the seconds, as milliseconds.
unfoldable pub parse_decimals : List ℕ → ℕ × List ℕ
parse_decimals [] = (0, [])
parse_decimals (p ∷ []) = (0, p ∷ [])
parse_decimals (p ∷ c ∷ s) =
    if p == 46
    then elim (digit c) [ none ↦ (0, p ∷ c ∷ s) | some d ↦ second_decimal (100 * d) s ]
    else (0, p ∷ c ∷ s)

pub record Timed : Type 0 where
  pub clock : Clock
  pub milliseconds : ℕ
  pub extended_time : Bool
  pub after_time : List ℕ

unfoldable pub parse_clock : Bool → List ℕ → Option Clock
parse_clock extended s = do
  hours ← two (at s 0) (at s 1)
  minutes ← if extended then two (at s 3) (at s 4) else two (at s 2) (at s 3)
  seconds ← if extended then two (at s 6) (at s 7) else two (at s 4) (at s 5)
  guard (not extended || (at s 5 == 58))
  some (record { hours = hours; minutes = minutes; seconds = seconds })

unfoldable pub parse_time : List ℕ → Option Timed
parse_time s = do
  let extended = (at s 2 == 58) && leb 8 (length s)
  guard (extended || leb 6 (length s))
  clock ← parse_clock extended s
  let decimals = if extended then parse_decimals (drop 8 s) else (0, drop 6 s)
  some (record {
    clock = clock;
    milliseconds = decimals.0;
    extended_time = extended;
    after_time = decimals.1;
  })

unfoldable pub in_range : Clock → Bool
in_range c = leb c.hours 23 && leb c.minutes 59 && leb c.seconds 59

pub record Zone : Type 0 where
  pub plus : Bool
  pub zone_hours : ℕ
  pub zone_minutes : ℕ

unfoldable pub parse_offset : Bool → List ℕ → Option Zone
parse_offset extended s = do
  let whole = length s == 3
  guard (if extended then (length s == 6) && (at s 3 == 58) else (length s == 5) || whole)
  minutes ←
      if extended then two (at s 4) (at s 5) else if whole then some 0 else two (at s 3) (at s 4)
  hours ← two (at s 1) (at s 2)
  some (record { plus = at s 0 == 43; zone_hours = hours; zone_minutes = minutes })

unfoldable pub parse_zone : Bool → List ℕ → Option Zone
parse_zone extended s =
    let utc : Zone = record { plus = false; zone_hours = 0; zone_minutes = 0 } in
    let offset = parse_offset extended s in
    if is_empty s
    then some utc
    else if at s 0 == 90
    then (if length s == 1 then some utc else none)
    else if (at s 0 == 43) || (at s 0 == 45)
    then offset
    else none

-- What is left when the date is read.
unfoldable pub parse_rest : Dated → Option ℕ
parse_rest d = do
  guard (ok d.date)
  guard (at d.after_date 0 == 84)
  t ← parse_time (drop 1 d.after_date)
  guard (if d.extended_date then t.extended_time else not t.extended_time)
  guard (in_range t.clock)
  z ← parse_zone t.extended_time t.after_time
  guard (leb z.zone_hours 23 && leb z.zone_minutes 59)
  let time = time_of d.date t.clock t.milliseconds
  let offset = z.zone_hours * 3600000 + z.zone_minutes * 60000
  some (if z.plus then time - offset else time + offset)

unfoldable pub parse_iso_timestamp : List ℕ → Option ℕ
parse_iso_timestamp s = do guard (leb 15 (length s)); d ← parse_date s; parse_rest d
