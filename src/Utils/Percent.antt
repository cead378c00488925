-- ===== src/Utils/Percent.antt =====
-- `cUtils::PercentEncodeTo` of Discord/Utils.h and `cUtils::PercentEncode` of
-- Discord/Utils/Utils.cpp. Texts are lists of bytes.
pub mod Decode
use Prim.Native.Nat.{bit_and}
use greek_bot.Prelude.{
  ℕ, ◌/◌, Bool, ◌&&◌, ◌||◌, List, [], ◌∷◌, ◌==◌, leb, if◌then◌else◌, get_or, codes,
}

-- The table `unreserved_char`.
unfoldable pub is_unreserved : ℕ → Bool
is_unreserved c =
    (leb 48 c && leb c 57)
    || (leb 65 c && leb c 90)
    || (leb 97 c && leb c 122)
    || (c == 45)
    || (c == 46)
    || (c == 95)
    || (c == 126)

unfoldable pub hex : ℕ → ℕ
hex i = get_or (codes "0123456789ABCDEF") i 0

unfoldable pub percent_encode : List ℕ → List ℕ
unfolding is_unreserved hex
percent_encode [] = []
percent_encode (c ∷ str) =
    let rest = percent_encode str in
    if is_unreserved c then c ∷ rest else 37 ∷ hex (c / 16) ∷ hex (bit_and c 15) ∷ rest
