-- ===== src/Nicknames/Table.antt =====
-- Database/Nicknames/Nicknames.cpp over the table `nicknames` of Database/query_init.sql. `none` is the
-- exception that a repeated `msg_id` throws.
use greek_bot.Prelude.{
  ℕ, Bool, not, ◌&&◌, List, [], ◌∷◌, Option, none, some, ◌==◌, if◌then◌else◌, false, true,
}
use greek_bot.Prelude.Table.{find, put, any}

pub record Entry : Type 0 where
  pub msg_id : Option ℕ
  pub nick : Option (List ℕ)

abbrev pub Nicknames : Type 0
Nicknames = List (ℕ × Entry)

-- A null or 0 is no id.
abbrev pub column_id : Option ℕ → Option ℕ
column_id none = none
column_id (some v) = if v == 0 then none else some v

-- What `Get` finds: the message, and the nickname, which is empty if there is none.
pub record Found : Type 0 where
  pub msg : Option ℕ
  pub name : List ℕ

abbrev text_of : Option (List ℕ) → List ℕ
text_of none = []
text_of (some s) = s

unfoldable pub get : ℕ → Nicknames → Found
get user t = elim (find user t) [
  | none ↦ record { msg = none; name = [] }
  | some e ↦ record { msg = column_id e.msg_id; name = text_of e.nick }
]

-- The message that was registered is returned, and forgotten.
unfoldable pub delete_message : ℕ → Nicknames → Nicknames × Option ℕ
delete_message user t = elim (find user t) [
  | none ↦ (t, none)
  | some e ↦ (put user (record e { msg_id = none }) t, column_id e.msg_id)
]

unfoldable pub update : ℕ → List ℕ → Nicknames → Nicknames
update user nick t = elim (find user t) [
  | none ↦ put user (record { msg_id = none; nick = some nick }) t
  | some e ↦ put user (record e { nick = some nick }) t
]

abbrev pub is_taken : ℕ → ℕ → ℕ → Entry → Bool
is_taken user msg j e = not (j == user) && elim e.msg_id [ none ↦ false | some m ↦ m == msg ]

unfoldable pub register_message : ℕ → ℕ → Nicknames → Option Nicknames
register_message user msg t = if any (is_taken user msg) t then none else elim (find user t) [
  | none ↦ some (put user (record { msg_id = some msg; nick = none }) t)
  | some e ↦ some (put user (record e { msg_id = some msg }) t)
]

abbrev is_vain : Entry → Bool
is_vain e = elim e.msg_id [ some m ↦ false | none ↦ elim e.nick [ some s ↦ false | none ↦ true ] ]

unfoldable pub cleanup : Nicknames → Nicknames
cleanup [] = []
cleanup ((user, e) ∷ t) = let rest = cleanup t in if is_vain e then rest else (user, e) ∷ rest
