-- ===== src/Messages/Deletion.antt =====
-- `cBot::DeleteMessages` of Discord/Bot_ChannelMessages.cpp and the timestamp of
-- Discord/Base/Snowflake.h. Messages are their ids, and times are nanoseconds since 1970.
use greek_bot.Prelude.{
  ℕ, zero, suc, ◌+◌, ◌-◌, ◌*◌, ◌/◌, Bool, List, [], ◌∷◌, ◌++◌, ltb, leb, if◌then◌else◌, min, length,
  take, drop, filterb, is_empty,
}

-- `sys_days(2015y/1/1) + milliseconds(m_int >> 22)`.
unfoldable pub get_timestamp : ℕ → ℕ
get_timestamp id = (1420070400000 + id / 4194304) * 1000000

-- `ceil<days>(now - id.GetTimestamp()) < days(14)`; a time before 0 rounds up to at most 0 days.
abbrev day : ℕ
day = 86400000000000

unfoldable pub is_newer : ℕ → ℕ → Bool
unfolding get_timestamp
is_newer now id = ltb ((now - get_timestamp id + 86399999999999) / day) 14

pub data Request : Type 0 where
  bulk_delete : List ℕ → Request
  delete_message : ℕ → Request

-- The array `ids` from its beginning to `it`, and from `it` to its end, where the older ids come in
-- from behind.
unfoldable pub newer : ℕ → List ℕ → List ℕ
newer now ids = filterb (is_newer now) ids

unfoldable pub older : ℕ → List ℕ → List ℕ
older now [] = []
older now (id ∷ ids) =
    let rest = older now ids in if is_newer now id then rest else rest ++ (id ∷ [])

-- `rng::sort`, greatest first.
unfoldable pub insert : ℕ → List ℕ → List ℕ
insert x [] = x ∷ []
insert x (y ∷ ys) = if leb y x then x ∷ y ∷ ys else y ∷ insert x ys

unfoldable pub sort : List ℕ → List ℕ
unfolding insert
sort [] = []
sort (x ∷ xs) = insert x (sort xs)

unfoldable pub one_by_one : List ℕ → List Request
one_by_one [] = []
one_by_one (id ∷ ids) = delete_message id ∷ one_by_one ids

-- The requests for one batch.
unfoldable pub delete_batch : ℕ → List ℕ → List Request
unfolding newer older sort one_by_one
delete_batch now ids =
    if leb 2 (length (newer now ids))
    then bulk_delete (newer now ids) ∷ one_by_one (sort (older now ids))
    else one_by_one (sort (newer now ids ++ older now ids))

-- The loop, with the clock as it is at each batch. An iteration takes at least one message, so that
-- a message is enough fuel.
unfoldable pub delete_loop : ℕ → (ℕ → ℕ) → List ℕ → List Request
unfolding delete_batch
delete_loop zero clock ids = []
delete_loop (suc fuel) clock ids =
    let ids_size = min (length ids) 100 in
    let rest = delete_loop fuel (λ n. clock (n + 1)) (drop ids_size ids) in
    if is_empty ids then [] else delete_batch (clock 0) (take ids_size ids) ++ rest

-- The requests of `DeleteMessages`, if none of them fails.
unfoldable pub delete_messages : (ℕ → ℕ) → List ℕ → List Request
unfolding delete_loop
delete_messages clock msg_ids = delete_loop (length msg_ids) clock msg_ids
