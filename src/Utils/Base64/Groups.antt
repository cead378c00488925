-- ===== src/Utils/Base64/Groups.antt =====
-- One group of three bytes and its four characters.
use Prim.Native.Nat.{bit_and, bit_or}
use greek_bot.Prelude.{
  inl, inr, ℕ, ◌+◌, ◌*◌, ◌/◌, ◌%◌, ◌<◌, ◌≡◌, refl, ap, sym, ◌∙◌, [], ◌∷◌, some, arith, Bool, true,
  ◌==◌, none, false, Option-cases, subst, ◌^◌,
}
use greek_bot.Prelude.Bits.{holds_below, below-holds, bit_and_3f, bit_and_ff, bit_or-disjoint}
use greek_bot.Utils.Base64.Code.{
  b64char, b64value, decode_word, first_byte, second_byte, third_byte, word_of,
}

abbrev inverts : ℕ → Bool
inverts i = elim (b64value (b64char i)) [ none ↦ false | some j ↦ j == i ]

inverts_sound : (i : ℕ) → inverts i ≡ true → b64value (b64char i) ≡ some i
inverts_sound i h = elim (Option-cases (b64value (b64char i))) [
  | inl missing ↦ ground (arith, missing)
  | inr (j, q) ↦ ground (arith, q)
]

all_invert : holds_below inverts 64 ≡ true
unfolding holds_below b64value b64char
all_invert = refl

pub b64value-b64char : (i : ℕ) → i < 64 → b64value (b64char i) ≡ some i
b64value-b64char i h = inverts_sound i (below-holds inverts 64 i all_invert h)

-- The four characters' values.
pub second_value :
    (a b : ℕ) → b < 256 → bit_and (bit_or (a * 16) (b / 16)) 0x3f ≡ (a * 16 + b / 16) % 64
second_value a b h =
    ap (λ x. bit_and x 0x3f) (bit_or-disjoint 4 a (b / 16) (omega arith))
    ∙ bit_and_3f (a * 16 + b / 16)

pub third_value :
    (b c : ℕ) → c < 256 → bit_and (bit_or (b * 4) (c / 64)) 0x3f ≡ (b * 4 + c / 64) % 64
third_value b c h =
    ap (λ x. bit_and x 0x3f) (bit_or-disjoint 2 b (c / 64) (omega arith))
    ∙ bit_and_3f (b * 4 + c / 64)

bit_or-sum : (k x y n : ℕ) → n ≡ x * 2 ^ k → y < 2 ^ k → bit_or n y ≡ n + y
bit_or-sum k x y n p h = subst (λ m. bit_or m y ≡ m + y) (sym p) (bit_or-disjoint k x y h)

word_of_lem :
    (a b c d : ℕ) → b < 64 → c < 64 → d < 64 → word_of a b c d ≡ ((a * 64 + b) * 64 + c) * 64 + d
word_of_lem a b c d hb hc hd =
    ap (λ x. bit_or (bit_or x (c * 2 ^ 6)) d)
      (bit_or-sum 18 a (b * 2 ^ 12) (a * 2 ^ 18) refl (omega arith))
    ∙ ap (λ x. bit_or x d)
        (bit_or-sum 12 (a * 64 + b) (c * 2 ^ 6) (a * 2 ^ 18 + b * 2 ^ 12) (omega arith)
          (omega arith))
    ∙ bit_or-sum 6 ((a * 64 + b) * 64 + c) d (a * 2 ^ 18 + b * 2 ^ 12 + c * 2 ^ 6) (omega arith)
        (omega arith)
    ∙ omega arith

pub decode_word_lem :
    (a b c d : ℕ)
    → a < 64
    → b < 64
    → c < 64
    → d < 64
    → decode_word a b c d ≡ (a * 4 + b / 16) ∷ (b % 16 * 16 + c / 4) ∷ (c % 4 * 64 + d) ∷ []
unfolding decode_word
decode_word_lem a b c d ha hb hc hd =
    subst
      (λ n.
        (n / 65536 % 256 ∷ bit_and (n / 256) 0xff ∷ bit_and n 0xff ∷ [])
        ≡ (a * 4 + b / 16) ∷ (b % 16 * 16 + c / 4) ∷ (c % 4 * 64 + d) ∷ [])
      (sym (word_of_lem a b c d hb hc hd))
      (bytes (((a * 64 + b) * 64 + c) * 64 + d) (omega arith) (omega arith) (omega arith))
  where
    bytes :
        (n : ℕ)
        → n / 65536 % 256 ≡ a * 4 + b / 16
        → n / 256 % 256 ≡ b % 16 * 16 + c / 4
        → n % 256 ≡ c % 4 * 64 + d
        → (n / 65536 % 256 ∷ bit_and (n / 256) 0xff ∷ bit_and n 0xff ∷ [])
          ≡ (a * 4 + b / 16) ∷ (b % 16 * 16 + c / 4) ∷ (c % 4 * 64 + d) ∷ []
    bytes n p q r = rw (bit_and_ff (n / 256), bit_and_ff n, p, q, r) refl

pub first_byte_lem : (a b : ℕ) → a < 64 → b < 64 → first_byte a b ≡ a * 4 + b / 16
unfolding first_byte
first_byte_lem a b ha hb = omega (arith, bit_or-disjoint 2 a (b / 16) (omega arith))

pub second_byte_lem : (b c : ℕ) → b < 64 → c < 64 → second_byte b c ≡ b % 16 * 16 + c / 4
unfolding second_byte
second_byte_lem b c hb hc =
    ap (λ x. bit_and x 0xff) (bit_or-disjoint 4 b (c / 4) (omega arith))
    ∙ omega (arith, bit_and_ff (b * 16 + c / 4))

pub third_byte_lem : (c d : ℕ) → c < 64 → d < 64 → third_byte c d ≡ c % 4 * 64 + d
unfolding third_byte
third_byte_lem c d hc hd =
    ap (λ x. bit_and x 0xff) (bit_or-disjoint 6 c d (omega arith))
    ∙ omega (arith, bit_and_ff (c * 64 + d))
