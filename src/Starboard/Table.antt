-- ===== src/Starboard/Table.antt =====
-- Database/Starboard/Starboard.cpp over the table `starboard` of Database/query_init.sql: its key is
-- `msg_id`, `sb_msg_id` is unique or null, and `num` must stay positive. `none` is the exception
-- that a violated constraint throws; the statement then changes nothing.
use greek_bot.Prelude.{
  ℕ, ◌+◌, ◌-◌, Bool, not, ◌&&◌, List, [], ◌∷◌, Option, none, some, ◌==◌, if◌then◌else◌, false, ◌++◌,
}
use greek_bot.Prelude.Table.{find, put, erase, any}

pub record Entry : Type 0 where
  pub author_id : ℕ
  pub sb_msg_id : Option ℕ
  pub num : ℕ

abbrev pub Starboard : Type 0
Starboard = List (ℕ × Entry)

pub record ReactionEntry : Type 0 where
  pub starboard_message_id : Option ℕ
  pub num_reactions : ℕ

-- `if (auto val = stmt.column_int(0)) ... emplace(val)`: null and 0 are no id.
unfoldable pub column_id : Option ℕ → Option ℕ
column_id none = none
column_id (some v) = if v == 0 then none else some v

unfoldable pub get_message_author : ℕ → Starboard → Option ℕ
get_message_author message t = elim (find message t) [ none ↦ none | some e ↦ some e.author_id ]

abbrev entry_of : Entry → ReactionEntry
entry_of e = record { starboard_message_id = column_id e.sb_msg_id; num_reactions = e.num }

unfoldable pub register_reaction : ℕ → ℕ → Starboard → Starboard × ReactionEntry
unfolding column_id
register_reaction message author t = elim (find message t) [
  | none ↦
      let e : Entry = record { author_id = author; sb_msg_id = none; num = 1 } in
      (put message e t, entry_of e)
  | some old ↦ let e : Entry = record old { num = old.num + 1 } in (put message e t, entry_of e)
]

-- `CHECK(num > 0)` refuses to take away the last reaction.
unfoldable pub remove_reaction : ℕ → Starboard → Option (Starboard × ReactionEntry)
unfolding column_id
remove_reaction message t = elim (find message t) [
  | none ↦ some (t, record { starboard_message_id = none; num_reactions = 0 })
  | some old ↦
      let e : Entry = record old { num = old.num - 1 } in
      if old.num == 1 then none else some (put message e t, entry_of e)
]

-- Whether another message's row has the id already: `sb_msg_id` is `UNIQUE`.
abbrev pub is_taken : ℕ → ℕ → ℕ → Entry → Bool
is_taken message sb j e = not (j == message) && elim e.sb_msg_id [ none ↦ false | some s ↦ s == sb ]

unfoldable pub register_message : ℕ → ℕ → Starboard → Option Starboard
register_message message sb t = elim (find message t) [
  | none ↦ some t
  | some old ↦
      if any (is_taken message sb) t
      then none
      else some (put message (record old { sb_msg_id = some sb }) t)
]

unfoldable pub remove_message : ℕ → Starboard → Starboard
remove_message message t = elim (find message t) [
  | none ↦ t
  | some old ↦ put message (record old { sb_msg_id = none }) t
]

-- The ids that `RETURNING sb_msg_id` gives for one row.
abbrev pub returned : Option Entry → List ℕ
returned none = []
returned (some e) = elim (column_id e.sb_msg_id) [ none ↦ [] | some s ↦ s ∷ [] ]

-- `DELETE ... WHERE msg_id IN (...)`; an empty list runs no statement, with the same result.
unfoldable pub delete_all : List ℕ → Starboard → Starboard × List ℕ
unfolding column_id
delete_all [] t = (t, [])
delete_all (m ∷ ms) t =
    let (t', ids) = delete_all ms (erase m t) in (t', returned (find m t) ++ ids)
