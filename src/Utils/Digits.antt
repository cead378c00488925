-- ===== src/Utils/Digits.antt =====
-- Decimal digits as texts, the common part of `std::from_chars` and `std::to_chars`, which
-- `cUtils::ParseInt` of Discord/Utils.h and Discord/Base/Snowflake.h use. Texts are lists of bytes.
use greek_bot.Prelude.{
  ℕ, zero, suc, ◌+◌, ◌-◌, ◌*◌, ◌/◌, ◌%◌, ◌^◌, ◌≤◌, ◌<◌, ◌≡◌, refl, ◌∙◌, ap, Bool, true, ◌&&◌, List,
  [], ◌∷◌, ◌++◌, ltb, leb, if◌then◌else◌, length, length-append, Bool-cases, inl, inr, arith,
  ltb→lt, subst, All, All-append,
}
use native.Mathlib.Nat.{pow-suc}
use mathlib.Core.List.{append_assoc}

-- The number that was read, how many digits it has, and the rest.
pub record Number : Type 0 where
  pub value : ℕ
  pub width : ℕ
  pub rest : List ℕ

abbrev pub is_digit : ℕ → Bool
is_digit c = leb 48 c && leb c 57

unfoldable pub scan : ℕ → ℕ → List ℕ → Number
scan value width [] = record { value = value; width = width; rest = [] }
scan value width (c ∷ s) =
    let further = scan (10 * value + (c - 48)) (suc width) s in
    if is_digit c then further else record { value = value; width = width; rest = c ∷ s }

-- The digits of a number, with fuel.
unfoldable pub digits : ℕ → ℕ → List ℕ
digits zero n = []
digits (suc fuel) n =
    let rest = digits fuel (n / 10) in
    if ltb n 10 then (48 + n) ∷ [] else rest ++ ((48 + n % 10) ∷ [])

unfoldable pub decimal : ℕ → List ℕ
unfolding digits
decimal n = digits (suc n) n

digit-scan :
    (value width d : ℕ) (s : List ℕ)
    → d < 10
    → scan value width ((48 + d) ∷ s) ≡ scan (10 * value + d) (suc width) s
unfolding scan
digit-scan value width d s lt = ground arith

scan-digits :
    (fuel n : ℕ) (s : List ℕ)
    → n < fuel
    → scan 0 0 (digits fuel n ++ s) ≡ scan n (length (digits fuel n)) s
unfolding digits
scan-digits zero n s lt = absurd (omega arith)
scan-digits (suc fuel) n s lt = elim (Bool-cases (ltb n 10)) [
  | inl small ↦
      rw small (digit-scan 0 0 n s (ltb→lt n 10 small) ∙ ap (λ v. scan v 1 s) (omega arith))
  | inr large ↦ rw large (
      ap (scan 0 0) (append_assoc (digits fuel (n / 10)) ((48 + n % 10) ∷ []) s)
      ∙ scan-digits fuel (n / 10) ((48 + n % 10) ∷ s) (ground (arith, large))
      ∙ digit-scan (n / 10) (length (digits fuel (n / 10))) (n % 10) s (omega arith)
      ∙ ap (λ v. scan v (suc (length (digits fuel (n / 10)))) s) (omega arith)
      ∙ ap (λ w. scan n w s)
          (omega (arith, length-append (digits fuel (n / 10)) ((48 + n % 10) ∷ []))))
]

-- What is printed is read back, up to the next character.
pub scan-decimal : (n : ℕ) (s : List ℕ) → scan 0 0 (decimal n ++ s) ≡ scan n (length (decimal n)) s
unfolding decimal
scan-decimal n s = scan-digits (suc n) n s (omega arith)

length-digits : (k fuel n : ℕ) → n < 10 ^ suc k → length (digits fuel n) ≤ suc k
unfolding digits
length-digits k zero n lt = omega arith
length-digits zero (suc fuel) n lt = elim (Bool-cases (ltb n 10)) [
  | inl small ↦ rw small (omega arith)
  | inr large ↦ absurd (ground (arith, lt, large))
]
length-digits (suc k) (suc fuel) n lt = elim (Bool-cases (ltb n 10)) [
  | inl small ↦ rw small (omega arith)
  | inr large ↦ rw large (
      omega (
        arith,
        length-append (digits fuel (n / 10)) ((48 + n % 10) ∷ []),
        length-digits k fuel (n / 10) (omega (arith, lt, pow-suc 10 (suc k))),
      ))
]

pub length-decimal : (k n : ℕ) → n < 10 ^ suc k → length (decimal n) ≤ suc k
unfolding decimal
length-decimal k n lt = length-digits k (suc n) n lt

abbrev pub IsDigit : ℕ → Type 0
IsDigit c = is_digit c ≡ true

digits-IsDigit : (fuel n : ℕ) → All IsDigit (digits fuel n)
unfolding digits
digits-IsDigit zero n = tt
digits-IsDigit (suc fuel) n = elim (Bool-cases (ltb n 10)) [
  | inl small ↦ rw small (ground (arith, small), tt)
  | inr large ↦ rw large (
      All-append IsDigit (digits fuel (n / 10)) ((48 + n % 10) ∷ []) (digits-IsDigit fuel (n / 10))
        (ground arith, tt))
]

pub decimal-IsDigit : (n : ℕ) → All IsDigit (decimal n)
unfolding decimal
decimal-IsDigit n = digits-IsDigit (suc n) n

digits-cons : (fuel n : ℕ) → n < fuel → (c : ℕ) × (s : List ℕ) × (digits fuel n ≡ c ∷ s)
unfolding digits
digits-cons zero n lt = absurd (omega arith)
digits-cons (suc fuel) n lt = elim (Bool-cases (ltb n 10)) [
  | inl small ↦ (48 + n, [], rw small refl)
  | inr large ↦
      let (c, s, q) = digits-cons fuel (n / 10) (ground (arith, large)) in
      (c, s ++ ((48 + n % 10) ∷ []), rw large (ap (λ l. l ++ ((48 + n % 10) ∷ [])) q))
]

-- What is printed begins with a digit.
pub decimal-cons : (n : ℕ) → (c : ℕ) × (s : List ℕ) × (decimal n ≡ c ∷ s) × (is_digit c ≡ true)
decimal-cons n = let (c, s, q) = cons in (c, s, q, (subst (All IsDigit) q (decimal-IsDigit n)).0)
  where
    cons : (c : ℕ) × (s : List ℕ) × (decimal n ≡ c ∷ s)
    cons = unfold decimal in digits-cons (suc n) n (omega arith)
