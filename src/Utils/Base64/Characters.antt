-- ===== src/Utils/Base64/Characters.antt =====
-- The characters of a group decode to its bytes.
use greek_bot.Prelude.{
  ℕ, ◌+◌, ◌*◌, ◌/◌, ◌%◌, ◌<◌, ◌≡◌, refl, [], ◌∷◌, some, arith, Bool, true, ◌==◌, not, false, List,
  ◌∙◌,
}
use greek_bot.Utils.Base64.Code.{b64char, decode_final, decode_all, decode_word}
use greek_bot.Utils.Base64.Groups.{
  b64value-b64char, first_byte_lem, second_byte_lem, third_byte_lem, decode_word_lem,
}
use greek_bot.Prelude.Bits.{holds_below, below-holds}
use Prim.Native.Nat.{bit_and}

-- No character's code has all the ones of the padding's.
no_padding : holds_below (λ i. not (bit_and (b64char i) 61 == 61)) 64 ≡ true
unfolding holds_below b64char
no_padding = refl

no_padding_pair :
    holds_below (λ i. holds_below (λ j. not (bit_and (b64char i) (b64char j) == 61)) 64) 64 ≡ true
unfolding holds_below b64char
no_padding_pair = refl

not_padding : holds_below (λ i. not (b64char i == 61)) 64 ≡ true
unfolding holds_below b64char
not_padding = refl

not-true : (b : Bool) → not b ≡ true → b ≡ false
not-true true h = ground arith
not-true false h = refl

pub one_byte :
    (i j : ℕ)
    → i < 64
    → j < 64
    → decode_final (b64char i) (b64char j) 61 61 ≡ some ((i * 4 + j / 16) ∷ [])
unfolding decode_final
one_byte i j hi hj =
    rw (b64value-b64char i hi, b64value-b64char j hj, first_byte_lem i j hi hj) refl

pub two_bytes :
    (i j k : ℕ)
    → i < 64
    → j < 64
    → k < 64
    → decode_final (b64char i) (b64char j) (b64char k) 61
      ≡ some ((i * 4 + j / 16) ∷ (j % 16 * 16 + k / 4) ∷ [])
unfolding decode_final
two_bytes i j k hi hj hk =
    rw
      (
        not-true (bit_and (b64char k) 61 == 61)
            (below-holds (λ i. not (bit_and (b64char i) 61 == 61)) 64 k no_padding hk),
        b64value-b64char i hi,
        b64value-b64char j hj,
        b64value-b64char k hk,
        first_byte_lem i j hi hj,
        second_byte_lem j k hj hk,
      )
      refl

pub three_bytes :
    (i j k l : ℕ)
    → i < 64
    → j < 64
    → k < 64
    → l < 64
    → decode_final (b64char i) (b64char j) (b64char k) (b64char l)
      ≡ some ((i * 4 + j / 16) ∷ (j % 16 * 16 + k / 4) ∷ (k % 4 * 64 + l) ∷ [])
unfolding decode_final
three_bytes i j k l hi hj hk hl =
    rw
      (
        not-true (bit_and (b64char k) (b64char l) == 61) pair,
        not-true (b64char l == 61) (below-holds (λ i. not (b64char i == 61)) 64 l not_padding hl),
        b64value-b64char i hi,
        b64value-b64char j hj,
        b64value-b64char k hk,
        b64value-b64char l hl,
        first_byte_lem i j hi hj,
        second_byte_lem j k hj hk,
        third_byte_lem k l hk hl,
      )
      refl
  where
    pair : not (bit_and (b64char k) (b64char l) == 61) ≡ true
    pair =
        below-holds (λ j. not (bit_and (b64char k) (b64char j) == 61)) 64 l
          (below-holds (λ i. holds_below (λ j. not (bit_and (b64char i) (b64char j) == 61)) 64) 64 k
            no_padding_pair hk)
          hl

pub bytes_one : (a : ℕ) → a < 256 → a / 4 * 4 + a * 16 % 64 / 16 ≡ a
bytes_one a ha = omega arith

pub byte_first : (a b : ℕ) → a < 256 → b < 256 → a / 4 * 4 + (a * 16 + b / 16) % 64 / 16 ≡ a
byte_first a b ha hb = omega arith

pub byte_second :
    (a b c : ℕ)
    → b < 256
    → c < 256
    → (a * 16 + b / 16) % 64 % 16 * 16 + (b * 4 + c / 64) % 64 / 4 ≡ b
byte_second a b c hb hc = omega arith

pub byte_second_last : (a b : ℕ) → b < 256 → (a * 16 + b / 16) % 64 % 16 * 16 + b * 4 % 64 / 4 ≡ b
byte_second_last a b hb = omega arith

pub byte_third : (b c : ℕ) → c < 256 → (b * 4 + c / 64) % 64 % 4 * 64 + c % 64 ≡ c
byte_third b c hc = omega arith

module _ (a b c : ℕ) (ha : a < 256) (hb : b < 256) (hc : c < 256) where
  group_word :
      decode_word (a / 4) ((a * 16 + b / 16) % 64) ((b * 4 + c / 64) % 64) (c % 64) ≡ a ∷ b ∷ c ∷ []
  group_word =
      decode_word_lem (a / 4) ((a * 16 + b / 16) % 64) ((b * 4 + c / 64) % 64) (c % 64)
        (omega arith) (omega arith) (omega arith) (omega arith)
      ∙ rw (byte_first a b ha hb, byte_second a b c hb hc, byte_third b c hc) refl

  -- A group before further characters.
  pub group_first :
      (e : ℕ) (s r : List ℕ)
      → decode_all (e ∷ s) ≡ some r
      → decode_all (
          b64char (a / 4)
          ∷ b64char ((a * 16 + b / 16) % 64)
          ∷ b64char ((b * 4 + c / 64) % 64)
          ∷ b64char (c % 64)
          ∷ e
          ∷ s)
        ≡ some (a ∷ b ∷ c ∷ r)
  unfolding decode_all
  group_first e s r q =
      rw
        (
          q,
          b64value-b64char (a / 4) (omega arith),
          b64value-b64char ((a * 16 + b / 16) % 64) (omega arith),
          b64value-b64char ((b * 4 + c / 64) % 64) (omega arith),
          b64value-b64char (c % 64) (omega arith),
          group_word,
        )
        refl
