-- ===== src/Prelude/Bits.antt =====
-- Masks and unions of bits at variables, as arithmetic on numbers.
use Prim.Native.Nat.{
  ℕ, zero, suc, ◌+◌, ◌*◌, ◌/◌, ◌%◌, ◌^◌, ◌≤◌, ◌<◌, min, max, bit_and, bit_or, digits,
  bit_and-bitwise, bit_or-bitwise,
}
use mathlib.Core.Path.{◌≡◌, refl, ap, ◌∙◌, sym}
use native.Mathlib.Nat.{pow-suc}
use mathlib.Core.Bool.{Bool, true, ◌&&◌}
use native.Mathlib.Omega.{arith}

-- Whether a test holds for the numbers below a bound.
unfoldable pub holds_below : (ℕ → Bool) → ℕ → Bool
holds_below test zero = true
holds_below test (suc bound) = holds_below test bound && test bound

pub below-holds :
    (test : ℕ → Bool) (bound i : ℕ) → holds_below test bound ≡ true → i < bound → test i ≡ true
unfolding holds_below
below-holds test zero i all lt = ground arith
below-holds test (suc bound) i all lt = ground (arith, below-holds test bound i)

-- The recursion on binary digits that the native operations stand for, over an operation on digits.
module _ (rest : ℕ → ℕ) (op : ℕ → ℕ → ℕ) where
  no_digits : (fuel b : ℕ) → digits rest op fuel 0 b ≡ rest b
  no_digits zero b = refl
  no_digits (suc fuel) b = refl

  more_fuel :
      (fuel more a b : ℕ)
      → a ≤ fuel
      → fuel ≤ more
      → digits rest op fuel a b ≡ digits rest op more a b
  more_fuel fuel more zero b le ge = no_digits fuel b ∙ sym (no_digits more b)
  more_fuel zero more (suc a) b le ge = absurd (omega arith)
  more_fuel (suc fuel) zero (suc a) b le ge = absurd (omega arith)
  more_fuel (suc fuel) (suc more) (suc a) b le ge =
      ap (λ d. d * 2 + op (suc a % 2) (b % 2))
        (more_fuel fuel more (suc a / 2) (b / 2) (omega arith) (omega arith))

  low_digit :
      (a b : ℕ)
      → rest b ≡ rest (b / 2) * 2 + op 0 (b % 2)
      → digits rest op a a b ≡ digits rest op (a / 2) (a / 2) (b / 2) * 2 + op (a % 2) (b % 2)
  low_digit zero b end = end
  low_digit (suc a) b end =
      ap (λ d. d * 2 + op (suc a % 2) (b % 2))
        (sym (more_fuel (suc a / 2) a (suc a / 2) (b / 2) (omega arith) (omega arith)))

pub bit_and-low : (a b : ℕ) → bit_and a b ≡ bit_and (a / 2) (b / 2) * 2 + min (a % 2) (b % 2)
bit_and-low a b = omega (
  arith,
  bit_and-bitwise a b,
  bit_and-bitwise (a / 2) (b / 2),
  low_digit (λ y. zero) min a b (omega arith),
)

pub bit_or-low : (a b : ℕ) → bit_or a b ≡ bit_or (a / 2) (b / 2) * 2 + max (a % 2) (b % 2)
bit_or-low a b = omega (
  arith,
  bit_or-bitwise a b,
  bit_or-bitwise (a / 2) (b / 2),
  low_digit (λ y. y) max a b (omega arith),
)

and_nothing : (fuel a : ℕ) → digits (λ y. zero) min fuel a 0 ≡ 0
and_nothing zero a = refl
and_nothing (suc fuel) zero = refl
and_nothing (suc fuel) (suc a) = omega (arith, and_nothing fuel (suc a / 2))

or_nothing : (fuel a : ℕ) → a ≤ fuel → digits (λ y. y) max fuel a 0 ≡ a
or_nothing zero a le = omega arith
or_nothing (suc fuel) zero le = refl
or_nothing (suc fuel) (suc a) le = omega (arith, or_nothing fuel (suc a / 2) (omega arith))

pub bit_and-nothing : (a : ℕ) → bit_and a 0 ≡ 0
bit_and-nothing a = bit_and-bitwise a 0 ∙ and_nothing a a

pub bit_or-nothing : (a : ℕ) → bit_or a 0 ≡ a
bit_or-nothing a = bit_or-bitwise a 0 ∙ or_nothing a a (omega arith)

-- k ones, and the k lowest digits of a number.
abbrev pub ones : ℕ → ℕ
ones zero = 0
ones (suc k) = ones k * 2 + 1

abbrev pub low : ℕ → ℕ → ℕ
low zero a = 0
low (suc k) a = low k (a / 2) * 2 + a % 2

pub bit_and-ones : (k a : ℕ) → bit_and a (ones k) ≡ low k a
bit_and-ones zero a = bit_and-nothing a
bit_and-ones (suc k) a =
    bit_and-low a (ones k * 2 + 1)
    ∙ omega (arith, ap (bit_and (a / 2)) (half (ones k)), bit_and-ones k (a / 2))
  where
    half : (m : ℕ) → (m * 2 + 1) / 2 ≡ m
    half m = omega arith

pub bit_and_1f : (a : ℕ) → bit_and a 0x1f ≡ a % 32
bit_and_1f a = bit_and-ones 5 a ∙ omega arith

pub bit_and_3f : (a : ℕ) → bit_and a 0x3f ≡ a % 64
bit_and_3f a = bit_and-ones 6 a ∙ omega arith

pub bit_and_ff : (a : ℕ) → bit_and a 0xff ≡ a % 256
bit_and_ff a = bit_and-ones 8 a ∙ omega arith

-- Where the low k digits of one side and the rest of the other are zero, `|` is a sum.
pub bit_or-disjoint : (k x y : ℕ) → y < 2 ^ k → bit_or (x * 2 ^ k) y ≡ x * 2 ^ k + y
bit_or-disjoint zero x zero h = bit_or-nothing (x * 2 ^ 0) ∙ omega arith
bit_or-disjoint zero x (suc y) h = absurd (omega arith)
bit_or-disjoint (suc k) x y h =
    bit_or-low (x * 2 ^ suc k) y
    ∙ omega (
      arith,
      pow-suc 2 k,
      ap (λ m. x * m) (pow-suc 2 k),
      ap (λ m. bit_or m (y / 2)) halved,
      bit_or-disjoint k x (y / 2) (omega (arith, pow-suc 2 k)),
    )
  where
    halved : x * 2 ^ suc k / 2 ≡ x * 2 ^ k
    halved = omega (arith, ap (λ m. x * m) (pow-suc 2 k))

pub bit_and_f : (a : ℕ) → bit_and a 0xf ≡ a % 16
bit_and_f a = bit_and-ones 4 a ∙ omega arith
