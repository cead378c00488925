-- ===== src/Utils/Snowflake.antt =====
-- `cSnowflake` of Discord/Base/Snowflake.h: an id as a text of at most 20 characters and as a 64-bit
-- integer. `none` is `xBadSnowflakeError`.
use greek_bot.Prelude.{
  ℕ, suc, ◌^◌, ◌≤◌, ◌<◌, ◌≡◌, refl, sym, ◌∙◌, ap, ◌||◌, not, List, [], Option, none, some, ◌==◌,
  leb, if◌then◌else◌, is_empty, length, take, arith, ◌∷◌, false, true, zero, ltb,
}
use greek_bot.Utils.Digits.{scan, decimal, scan-decimal, length-decimal, is_digit, decimal-cons}
use mathlib.Core.List.{append-nil}

pub record Snowflake : Type 0 where
  pub m_str : List ℕ
  pub m_int : ℕ

-- `std::to_chars`.
unfoldable pub from_int : ℕ → Snowflake
from_int n = record { m_str = decimal n; m_int = n }

-- `std::from_chars` must read the whole text; the text is copied as far as there is room.
unfoldable pub from_text : List ℕ → Option Snowflake
from_text s =
    let number = scan 0 0 s in
    if (number.width == 0) || leb (2 ^ 64) number.value || not (is_empty number.rest)
    then none
    else some (record { m_str = take 20 s; m_int = number.value })

take-all : (k : ℕ) (s : List ℕ) → length s ≤ k → take k s ≡ s
take-all zero [] le = refl
take-all (suc k) [] le = refl
take-all zero (c ∷ s) le = absurd (omega arith)
take-all (suc k) (c ∷ s) le = ap (λ t. c ∷ t) (take-all k s (omega arith))

-- A printed number is read whole.
pub scan-whole :
    (n : ℕ)
    → (scan 0 0 (decimal n) ≡ record { value = n; width = length (decimal n); rest = [] })
      × ((length (decimal n) == 0) ≡ false)
unfolding scan
scan-whole n = (
  ap (scan 0 0) (sym (append-nil (decimal n))) ∙ scan-decimal n [],
  (let (c, s, q, digit) = decimal-cons n in rw q (ground arith)),
)

-- Each 64-bit id is read back from its text.
pub from_text-decimal : (n : ℕ) → n < 2 ^ 64 → from_text (decimal n) ≡ some (from_int n)
unfolding from_text from_int
from_text-decimal n lt =
    let (whole, wide) = scan-whole n in
    rw (whole, wide, in_range)
      (ap (λ s. some (record { m_str = s; m_int = n }))
        (take-all 20 (decimal n) (length-decimal 19 n (omega (arith, lt)))))
  where
    in_range : leb (2 ^ 64) n ≡ false
    in_range = ground (arith, lt)

-- `ParseInt<milliseconds::rep>`, for 64-bit signed numbers: `some none` is a negative one.
unfoldable pub parse_milliseconds : List ℕ → Option (Option ℕ)
parse_milliseconds [] = none
parse_milliseconds (c ∷ s) =
    let number = scan 0 0 (if c == 45 then s else c ∷ s) in
    if (number.width == 0) || not (is_empty number.rest)
    then none
    else if c == 45
    then if leb number.value (2 ^ 63)
      then some (if number.value == 0 then some 0 else none)
      else none
    else if ltb number.value (2 ^ 63)
    then some (some number.value)
    else none

pub parse_milliseconds-decimal :
    (n : ℕ) → n < 2 ^ 63 → parse_milliseconds (decimal n) ≡ some (some n)
unfolding parse_milliseconds
parse_milliseconds-decimal n lt =
    let (c, s, q, digit) = decimal-cons n in
    let (whole, wide) = scan-whole n in
    let read : scan 0 0 (c ∷ s) ≡ record { value = n; width = length (decimal n); rest = [] } =
      ap (scan 0 0) (sym q) ∙ whole in
    rw q (rw (plain c digit, read, wide) (ground (arith, lt)))
  where
    plain : (c : ℕ) → is_digit c ≡ true → (c == 45) ≡ false
    plain c digit = ground (arith, digit)
