-- ===== src/Utils/Base64/Code.antt =====
-- Discord/Utils/Base64.cpp: texts and data are lists of bytes, and `none` is an exception.
use Prim.Native.Nat.{bit_and, bit_or}
use greek_bot.Prelude.{
  ℕ, ◌+◌, ◌-◌, ◌*◌, ◌/◌, ◌%◌, ◌==◌, zero, suc, List, [], ◌∷◌, ◌++◌, Option, none, some,
  if◌then◌else◌, get_or, codes, length, drop, ◌^◌,
}

abbrev pub b64chars : List ℕ
b64chars = codes "ABCDEFGHIJKLMNOPQRSTUVWXYZabcdefghijklmnopqrstuvwxyz0123456789+/"

unfoldable pub b64char : ℕ → ℕ
b64char i = get_or b64chars i 0

abbrev pub padding : ℕ
padding = 61

-- The final string size: the closest multiple of 4.
unfoldable pub encoded_size : ℕ → ℕ
encoded_size num = (num + (if num % 3 == 0 then 0 else 3 - num % 3)) * 8 / 6

-- The characters that are written over the padding.
unfoldable pub encode_chars : List ℕ → List ℕ
encode_chars [] = []
encode_chars (a ∷ []) = b64char (a / 4) ∷ b64char (bit_and (a * 16) 0x3f) ∷ []
encode_chars (a ∷ b ∷ []) =
    b64char (a / 4)
    ∷ b64char (bit_and (bit_or (a * 16) (b / 16)) 0x3f)
    ∷ b64char (bit_and (b * 4) 0x3f)
    ∷ []
encode_chars (a ∷ b ∷ c ∷ p) =
    b64char (a / 4)
    ∷ b64char (bit_and (bit_or (a * 16) (b / 16)) 0x3f)
    ∷ b64char (bit_and (bit_or (b * 4) (c / 64)) 0x3f)
    ∷ b64char (bit_and c 0x3f)
    ∷ encode_chars p

abbrev pub fill : ℕ → List ℕ
fill zero = []
fill (suc n) = padding ∷ fill n

unfoldable pub base64_encode : List ℕ → List ℕ
base64_encode bs =
    encode_chars bs ++ drop (length (encode_chars bs)) (fill (encoded_size (length bs)))

-- The position of a character from `i` on.
abbrev position : List ℕ → ℕ → ℕ → Option ℕ
position [] i c = none
position (x ∷ xs) i c = if x == c then some i else position xs (i + 1) c

-- The table `b64values`, which inverts `b64chars`: `none` for -1.
unfoldable pub b64value : ℕ → Option ℕ
b64value c = position b64chars 0 c

-- `(a | b) < 0`, `(a | b | c) < 0` and `(a | b | c | d) < 0` guard what was decoded.
abbrev pub both : Option ℕ → Option ℕ → (ℕ → ℕ → List ℕ) → Option (List ℕ)
both (some a) (some b) f = some (f a b)
both (some a) none f = none
both none b f = none

abbrev pub all_three : Option ℕ → Option ℕ → Option ℕ → (ℕ → ℕ → ℕ → List ℕ) → Option (List ℕ)
all_three (some a) b c f = both b c (f a)
all_three none b c f = none

abbrev pub all_four :
    Option ℕ → Option ℕ → Option ℕ → Option ℕ → (ℕ → ℕ → ℕ → ℕ → List ℕ) → Option (List ℕ)
all_four (some a) b c d f = all_three b c d (f a)
all_four none b c d f = none

-- The body of the loop.
abbrev pub word_of : ℕ → ℕ → ℕ → ℕ → ℕ
word_of a b c d = bit_or (bit_or (bit_or (a * 2 ^ 18) (b * 2 ^ 12)) (c * 2 ^ 6)) d

unfoldable pub decode_word : ℕ → ℕ → ℕ → ℕ → List ℕ
decode_word a b c d =
    let n = word_of a b c d in n / 65536 % 256 ∷ bit_and (n / 256) 0xff ∷ bit_and n 0xff ∷ []

-- The bytes of the final characters.
unfoldable pub first_byte : ℕ → ℕ → ℕ
first_byte a b = bit_or (a * 4) (b / 16) % 256

unfoldable pub second_byte : ℕ → ℕ → ℕ
second_byte b c = bit_and (bit_or (b * 16) (c / 4)) 0xff

unfoldable pub third_byte : ℕ → ℕ → ℕ
third_byte c d = bit_and (bit_or (c * 64) d) 0xff

-- The final characters, the last two perhaps padding.
unfoldable pub decode_final : ℕ → ℕ → ℕ → ℕ → Option (List ℕ)
decode_final a b c d =
    if bit_and c d == padding
    then both (b64value a) (b64value b) (λ a b. first_byte a b ∷ [])
    else if d == padding
    then all_three (b64value a) (b64value b) (b64value c)
        (λ a b c. first_byte a b ∷ second_byte b c ∷ [])
    else all_four (b64value a) (b64value b) (b64value c) (b64value d)
        (λ a b c d. first_byte a b ∷ second_byte b c ∷ third_byte c d ∷ [])

abbrev after : Option (List ℕ) → Option (List ℕ) → Option (List ℕ)
after (some xs) (some ys) = some (xs ++ ys)
after (some xs) none = none
after none ys = none

unfoldable pub decode_all : List ℕ → Option (List ℕ)
decode_all (a ∷ b ∷ c ∷ d ∷ e ∷ s) =
    after (all_four (b64value a) (b64value b) (b64value c) (b64value d) decode_word)
      (decode_all (e ∷ s))
decode_all (a ∷ b ∷ c ∷ d ∷ []) = decode_final a b c d
decode_all (a ∷ b ∷ c ∷ []) = decode_final a b c padding
decode_all (a ∷ b ∷ []) = decode_final a b padding padding
decode_all (a ∷ []) = none
decode_all [] = some []

unfoldable pub base64_decode : List ℕ → Option (List ℕ)
unfolding decode_all
base64_decode str = decode_all str
