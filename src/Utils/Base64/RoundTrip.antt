-- ===== src/Utils/Base64/RoundTrip.antt =====
-- Decoding what was encoded, with or without its padding, gives the data back.
use greek_bot.Prelude.{
  ℕ, ◌+◌, ◌*◌, ◌/◌, ◌%◌, ◌<◌, ◌≡◌, refl, [], ◌∷◌, some, arith, ◌==◌, List, ◌++◌, All, ◌∙◌, ◌≤◌, suc,
  ap, drop, length, sym, length-append, subst, Bool-cases, inl, inr, zero,
}
use greek_bot.Utils.Base64.Code.{
  b64char, decode_final, decode_all, encode_chars, base64_encode, fill, base64_decode, encoded_size,
  padding,
}
use greek_bot.Utils.Base64.Characters.{
  one_byte, two_bytes, three_bytes, bytes_one, byte_first, byte_second, byte_second_last,
  byte_third, group_first,
}
use greek_bot.Utils.Base64.Groups.{second_value, third_value}
use greek_bot.Prelude.Bits.{bit_and_3f}
use Prim.Native.Nat.{bit_and, bit_or}

-- How many padding characters complete the text, by the length of the data.
unfoldable pub missing : List ℕ → ℕ
missing [] = 0
missing (a ∷ []) = 2
missing (a ∷ b ∷ []) = 1
missing (a ∷ b ∷ c ∷ p) = missing p

nonempty : (x : ℕ) (p : List ℕ) → (e : ℕ) × (s : List ℕ) × (encode_chars (x ∷ p) ≡ e ∷ s)
unfolding encode_chars
nonempty x [] = (_, _, refl)
nonempty x (y ∷ []) = (_, _, refl)
nonempty x (y ∷ z ∷ p) = (_, _, refl)

one_left :
    (a k : ℕ)
    → a < 256
    → k ≤ 2
    → decode_all (b64char (a / 4) ∷ b64char (bit_and (a * 16) 0x3f) ∷ fill k) ≡ some (a ∷ [])
unfolding decode_all
one_left a zero ha le =
    rw (bit_and_3f (a * 16))
      (one_byte (a / 4) (a * 16 % 64) (omega arith) (omega arith) ∙ rw (bytes_one a ha) refl)
one_left a (suc zero) ha le = one_left a zero ha (omega arith)
one_left a (suc (suc zero)) ha le = one_left a zero ha (omega arith)
one_left a (suc (suc (suc k))) ha le = absurd (omega arith)

two_left :
    (a b k : ℕ)
    → a < 256
    → b < 256
    → k ≤ 1
    → decode_all (
        b64char (a / 4)
        ∷ b64char (bit_and (bit_or (a * 16) (b / 16)) 0x3f)
        ∷ b64char (bit_and (b * 4) 0x3f)
        ∷ fill k)
      ≡ some (a ∷ b ∷ [])
unfolding decode_all
two_left a b zero ha hb le =
    rw (second_value a b hb, bit_and_3f (b * 4))
      (two_bytes (a / 4) ((a * 16 + b / 16) % 64) (b * 4 % 64) (omega arith) (omega arith)
          (omega arith)
        ∙ rw (byte_first a b ha hb, byte_second_last a b hb) refl)
two_left a b (suc zero) ha hb le = two_left a b zero ha hb (omega arith)
two_left a b (suc (suc k)) ha hb le = absurd (omega arith)

none_left :
    (a b c : ℕ)
    → a < 256
    → b < 256
    → c < 256
    → decode_all (encode_chars (a ∷ b ∷ c ∷ []) ++ []) ≡ some (a ∷ b ∷ c ∷ [])
unfolding decode_all encode_chars
none_left a b c ha hb hc =
    rw (second_value a b hb, third_value b c hc, bit_and_3f c)
      (three_bytes (a / 4) ((a * 16 + b / 16) % 64) ((b * 4 + c / 64) % 64) (c % 64) (omega arith)
          (omega arith) (omega arith) (omega arith)
        ∙ rw (byte_first a b ha hb, byte_second a b c hb hc, byte_third b c hc) refl)

step_left :
    (a b c k : ℕ) (p : List ℕ) (e : ℕ) (s : List ℕ)
    → a < 256
    → b < 256
    → c < 256
    → encode_chars p ≡ e ∷ s
    → decode_all (e ∷ s ++ fill k) ≡ some p
    → decode_all (encode_chars (a ∷ b ∷ c ∷ p) ++ fill k) ≡ some (a ∷ b ∷ c ∷ p)
unfolding encode_chars
step_left a b c k p e s ha hb hc q r =
    rw (second_value a b hb, third_value b c hc, bit_and_3f c, q)
      (group_first a b c ha hb hc e (s ++ fill k) p r)

decode_padded :
    (k : ℕ) (bs : List ℕ)
    → All (λ b. b < 256) bs
    → k ≤ missing bs
    → decode_all (encode_chars bs ++ fill k) ≡ some bs
unfolding encode_chars missing decode_all
decode_padded zero [] h le = refl
decode_padded (suc k) [] h le = absurd (omega arith)
decode_padded k (a ∷ []) (ha, h) le = one_left a k ha le
decode_padded k (a ∷ b ∷ []) (ha, (hb, h)) le = two_left a b k ha hb le
decode_padded zero (a ∷ b ∷ c ∷ []) (ha, (hb, (hc, h))) le = none_left a b c ha hb hc
decode_padded (suc k) (a ∷ b ∷ c ∷ []) (ha, (hb, (hc, h))) le = absurd (omega arith)
decode_padded k (a ∷ b ∷ c ∷ x ∷ p) (ha, (hb, (hc, h))) le =
    let (e, s, q) = nonempty x p in
    step_left a b c k (x ∷ p) e s ha hb hc q
      (subst (λ t. decode_all (t ++ fill k) ≡ some (x ∷ p)) q (decode_padded k (x ∷ p) h le))

encoded_size_closed : (n : ℕ) → encoded_size n ≡ (n + 2) / 3 * 4
unfolding encoded_size
encoded_size_closed n = elim (Bool-cases (n % 3 == 0)) [
  | inl whole ↦ rw whole (ground arith)
  | inr more ↦ rw more (ground arith)
]

length-encode_chars :
    (bs : List ℕ) → length (encode_chars bs) + missing bs ≡ (length bs + 2) / 3 * 4
unfolding encode_chars missing
length-encode_chars [] = refl
length-encode_chars (a ∷ []) = refl
length-encode_chars (a ∷ b ∷ []) = refl
length-encode_chars (a ∷ b ∷ c ∷ p) = omega (arith, length-encode_chars p)

drop-fill : (n m k : ℕ) → k ≡ n + m → drop n (fill k) ≡ fill m
drop-fill zero m k h = ap fill (omega arith)
drop-fill (suc n) m zero h = absurd (omega arith)
drop-fill (suc n) m (suc k) h = drop-fill n m k (omega arith)

-- The text is the characters, completed by padding.
encode_shape : (bs : List ℕ) → base64_encode bs ≡ encode_chars bs ++ fill (missing bs)
unfolding base64_encode
encode_shape bs =
    ap (λ t. encode_chars bs ++ t)
      (drop-fill (length (encode_chars bs)) (missing bs) (encoded_size (length bs))
        (encoded_size_closed (length bs) ∙ sym (length-encode_chars bs)))

-- `Base64Decode` gives back the bytes that `Base64Encode` was given.
pub decode-encode :
    (bs : List ℕ) → All (λ b. b < 256) bs → base64_decode (base64_encode bs) ≡ some bs
unfolding base64_decode
decode-encode bs h = ap decode_all (encode_shape bs) ∙ decode_padded (missing bs) bs h (omega arith)

-- `Base64Decode` gives back the bytes that were encoded if some or all of the padding is left out.
decode-unpadded :
    (bs : List ℕ)
    → All (λ b. b < 256) bs
    → (k : ℕ) → k ≤ missing bs
    → base64_decode (encode_chars bs ++ fill k) ≡ some bs
unfolding base64_decode
decode-unpadded bs h k le = decode_padded k bs h le

length-fill : (n : ℕ) → length (fill n) ≡ n
length-fill zero = refl
length-fill (suc n) = ap suc (length-fill n)

-- The text has 4 characters for every 3 bytes of the data, the last group perhaps shorter.
length-base64_encode : (bs : List ℕ) → length (base64_encode bs) ≡ (length bs + 2) / 3 * 4
length-base64_encode bs =
    ap length (encode_shape bs)
    ∙ omega (
      arith,
      length-append (encode_chars bs) (fill (missing bs)),
      length-fill (missing bs),
      length-encode_chars bs,
    )

-- A third character of a last group whose code has all the ones of the padding's, as `}` has, is
-- taken for padding: the text is decoded as though it ended before it.
mistaken_padding :
    (a b c : ℕ)
    → bit_and c padding ≡ padding
    → base64_decode (a ∷ b ∷ c ∷ padding ∷ []) ≡ base64_decode (a ∷ b ∷ [])
unfolding base64_decode decode_all decode_final
mistaken_padding a b c h = rw (h) refl
