-- ===== src/Bans/Table.antt =====
-- Database/TempBans/TempBans.cpp over the table `tempbans` of Database/query_init.sql: for each user the
-- day on which the ban expires.
use greek_bot.Prelude.{
  ==_iff, Bool-cases, inl, inr, ap, sym, ◌∙◌, ℕ, ◌≡◌, Bool, false, List, [], ◌∷◌, Option, none,
  some, ◌==◌, if◌then◌else◌, leb, refl, arith, contains,
}
use greek_bot.Prelude.Table.{
  IsKeyed, put-IsKeyed, erase-IsKeyed, erase_all, put, erase, find, find-put, find-erase,
}

abbrev pub TempBans : Type 0
TempBans = List (ℕ × ℕ)

-- `Remove` of one user, and of several.
unfoldable pub remove_ban : ℕ → TempBans → TempBans
remove_ban user t = erase user t

unfoldable pub remove_bans : List ℕ → TempBans → TempBans
unfolding erase_all
remove_bans users t = erase_all users t

-- `Register`: no expiry removes the row.
unfoldable pub register_ban : ℕ → Option ℕ → TempBans → TempBans
unfolding remove_ban
register_ban user none t = remove_ban user t
register_ban user (some day) t = put user day t

unfoldable pub get_expired : ℕ → TempBans → List ℕ
get_expired today [] = []
get_expired today ((user, day) ∷ t) =
    let rest = get_expired today t in if leb day today then user ∷ rest else rest

-- Whether a user's ban has expired.
abbrev pub has_expired : ℕ → Option ℕ → Bool
has_expired today none = false
has_expired today (some day) = leb day today

expired_none :
    (user today : ℕ) (t : TempBans)
    → find user t ≡ none
    → contains (get_expired today t) user ≡ false
unfolding get_expired find
expired_none user today [] q = refl
expired_none user today ((j, day) ∷ t) q = ground (arith, expired_none user today t)

pub get_expired_lem :
    (user today : ℕ) (t : TempBans)
    → IsKeyed t
    → contains (get_expired today t) user ≡ has_expired today (find user t)
unfolding get_expired find IsKeyed
get_expired_lem user today [] v = refl
get_expired_lem user today ((j, day) ∷ t) (new, v) = elim (Bool-cases (j == user)) [
  | inl same ↦ rw same (
      ground (
        arith,
        expired_none user today t (ap (λ k. find k t) (sym ((==_iff j user).0 same)) ∙ new),
      ))
  | inr other ↦ rw other (ground (arith, get_expired_lem user today t v))
]

pub find-register_ban :
    (j user : ℕ) (expiry : Option ℕ) (t : TempBans)
    → find j (register_ban user expiry t) ≡ (if user == j then expiry else find j t)
unfolding register_ban remove_ban
find-register_ban j user none t = find-erase j user t
find-register_ban j user (some day) t = find-put j user day t

pub register_ban-IsKeyed :
    (user : ℕ) (expiry : Option ℕ) (t : TempBans) → IsKeyed t → IsKeyed (register_ban user expiry t)
unfolding register_ban remove_ban
register_ban-IsKeyed user none t v = erase-IsKeyed user t v
register_ban-IsKeyed user (some day) t v = put-IsKeyed user day t v
