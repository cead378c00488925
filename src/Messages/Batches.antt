-- ===== src/Messages/Batches.antt =====
-- Each message is deleted once, and Discord's limits on bulk deletion are kept.
use greek_bot.Prelude.{
  ℕ, zero, suc, ◌+◌, ◌-◌, ◌*◌, ◌/◌, List, [], ◌∷◌, ◌++◌, leb, if◌then◌else◌, min, length, take,
  drop, ◌==◌, ◌≡◌, true, refl, arith, All, All-append, Bool-cases, inl, inr, length-take,
  length-drop, take-append-drop, ap, sym, ◌∙◌, ◌≤◌, leb→le, ltb→lt,
}
use mathlib.Core.List.{append_assoc}
use greek_bot.Messages.Deletion.{
  is_newer, get_timestamp, newer, older, Request, bulk_delete, delete_message, insert, sort,
  one_by_one, delete_batch, delete_loop, delete_messages,
}

-- How often an id stands in a list.
unfoldable pub count : ℕ → List ℕ → ℕ
count x [] = 0
count x (y ∷ ys) = (if y == x then 1 else 0) + count x ys

-- The ids that requests delete.
unfoldable pub deleted : List Request → List ℕ
deleted [] = []
deleted (bulk_delete ids ∷ rs) = ids ++ deleted rs
deleted (delete_message id ∷ rs) = id ∷ deleted rs

count-append : (x : ℕ) (xs ys : List ℕ) → count x (xs ++ ys) ≡ count x xs + count x ys
unfolding count
count-append x [] ys = omega arith
count-append x (y ∷ xs) ys = omega (arith, count-append x xs ys)

deleted-append : (rs ss : List Request) → deleted (rs ++ ss) ≡ deleted rs ++ deleted ss
unfolding deleted
deleted-append [] ss = refl
deleted-append (bulk_delete ids ∷ rs) ss =
    ap (λ t. ids ++ t) (deleted-append rs ss) ∙ sym (append_assoc ids (deleted rs) (deleted ss))
deleted-append (delete_message id ∷ rs) ss = ap (λ t. id ∷ t) (deleted-append rs ss)

deleted-one_by_one : (ids : List ℕ) → deleted (one_by_one ids) ≡ ids
unfolding deleted one_by_one
deleted-one_by_one [] = refl
deleted-one_by_one (id ∷ ids) = ap (λ t. id ∷ t) (deleted-one_by_one ids)

count-insert : (x y : ℕ) (ys : List ℕ) → count x (insert y ys) ≡ count x (y ∷ ys)
unfolding insert count
count-insert x y [] = refl
count-insert x y (z ∷ zs) = ground (arith, count-insert x y zs)

count-sort : (x : ℕ) (ys : List ℕ) → count x (sort ys) ≡ count x ys
unfolding sort count
count-sort x [] = refl
count-sort x (y ∷ ys) = omega (arith, count-insert x y (sort ys), count-sort x ys)

count_parts :
    (x now : ℕ) (ids : List ℕ) → count x (newer now ids) + count x (older now ids) ≡ count x ids
unfolding newer older count
count_parts x now [] = refl
count_parts x now (id ∷ ids) = elim (Bool-cases (is_newer now id)) [
  | inl new ↦ rw new (omega (arith, count_parts x now ids))
  | inr old ↦
      rw old (omega (arith, count_parts x now ids, count-append x (older now ids) (id ∷ [])))
]

one_by_one_all : (ids : List ℕ) (x : ℕ) → count x (deleted (one_by_one (sort ids))) ≡ count x ids
one_by_one_all ids x = ap (count x) (deleted-one_by_one (sort ids)) ∙ count-sort x ids

count_batch : (x now : ℕ) (ids : List ℕ) → count x (deleted (delete_batch now ids)) ≡ count x ids
unfolding delete_batch deleted
count_batch x now ids = elim (Bool-cases (leb 2 (length (newer now ids)))) [
  | inl bulk ↦ rw bulk (
      count-append x (newer now ids) (deleted (one_by_one (sort (older now ids))))
      ∙ omega (arith, one_by_one_all (older now ids) x, count_parts x now ids))
  | inr few ↦ rw few (
      one_by_one_all (newer now ids ++ older now ids) x
      ∙ omega (arith, count-append x (newer now ids) (older now ids), count_parts x now ids))
]

count_loop :
    (x fuel : ℕ) (clock : ℕ → ℕ) (ids : List ℕ)
    → length ids ≤ fuel
    → count x (deleted (delete_loop fuel clock ids)) ≡ count x ids
unfolding delete_loop count deleted
count_loop x zero clock [] le = refl
count_loop x zero clock (id ∷ ids) le = absurd (omega arith)
count_loop x (suc fuel) clock [] le = refl
count_loop x (suc fuel) clock (id ∷ ids) le =
    let n = min (length (id ∷ ids)) 100 in
    let batch = delete_batch (clock 0) (take n (id ∷ ids)) in
    let rest = delete_loop fuel (λ k. clock (k + 1)) (drop n (id ∷ ids)) in
    ap (count x) (deleted-append batch rest)
    ∙ count-append x (deleted batch) (deleted rest)
    ∙ ap (λ k. k + count x (deleted rest)) (count_batch x (clock 0) (take n (id ∷ ids)))
    ∙ ap (λ k. count x (take n (id ∷ ids)) + k)
        (count_loop x fuel (λ k. clock (k + 1)) (drop n (id ∷ ids))
          (omega (arith, length-drop n (id ∷ ids))))
    ∙ sym (count-append x (take n (id ∷ ids)) (drop n (id ∷ ids)))
    ∙ ap (count x) (take-append-drop n (id ∷ ids))

-- The requests of `DeleteMessages` delete each message exactly as often as it was asked for, in
-- whatever batches and whatever the clock shows.
pub delete_messages_complete :
    (x : ℕ) (clock : ℕ → ℕ) (msg_ids : List ℕ)
    → count x (deleted (delete_messages clock msg_ids)) ≡ count x msg_ids
unfolding delete_messages
delete_messages_complete x clock msg_ids = count_loop x (length msg_ids) clock msg_ids (omega arith)

-- A message that Discord deletes in bulk at a time: it is no older than 13 days.
abbrev pub IsRecent : ℕ → ℕ → Type 0
IsRecent now id = now ≤ get_timestamp id + 13 * 86400000000000

-- A bulk deletion has from 2 to 100 ids, all recent at one of the clock's times.
unfoldable pub IsAllowed : (ℕ → ℕ) → Request → Type 0
IsAllowed clock (bulk_delete ids) =
    (2 ≤ length ids) × (length ids ≤ 100) × (n : ℕ) × All (IsRecent (clock n)) ids
IsAllowed clock (delete_message id) = Unit

is_newer-IsRecent : (now id : ℕ) → is_newer now id ≡ true → IsRecent now id
unfolding is_newer
is_newer-IsRecent now id h =
    let lt = ltb→lt ((now - get_timestamp id + 86399999999999) / 86400000000000) 14 h in omega arith

newer-IsRecent : (now : ℕ) (ids : List ℕ) → All (IsRecent now) (newer now ids)
unfolding newer
newer-IsRecent now [] = tt
newer-IsRecent now (id ∷ ids) = elim (Bool-cases (is_newer now id)) [
  | inl new ↦ rw new (is_newer-IsRecent now id new, newer-IsRecent now ids)
  | inr old ↦ rw old (newer-IsRecent now ids)
]

length-newer : (now : ℕ) (ids : List ℕ) → length (newer now ids) ≤ length ids
unfolding newer
length-newer now [] = omega arith
length-newer now (id ∷ ids) = elim (Bool-cases (is_newer now id)) [
  | inl new ↦ rw new (omega (arith, length-newer now ids))
  | inr old ↦ rw old (omega (arith, length-newer now ids))
]

one_by_one-IsAllowed : (clock : ℕ → ℕ) (ids : List ℕ) → All (IsAllowed clock) (one_by_one ids)
unfolding one_by_one IsAllowed
one_by_one-IsAllowed clock [] = tt
one_by_one-IsAllowed clock (id ∷ ids) = (tt, one_by_one-IsAllowed clock ids)

delete_batch-IsAllowed :
    (clock : ℕ → ℕ) (ids : List ℕ)
    → length ids ≤ 100
    → All (IsAllowed clock) (delete_batch (clock 0) ids)
unfolding delete_batch IsAllowed
delete_batch-IsAllowed clock ids le = elim (Bool-cases (leb 2 (length (newer (clock 0) ids)))) [
  | inl bulk ↦ rw bulk (
    (
      leb→le 2 (length (newer (clock 0) ids)) bulk,
      omega (arith, length-newer (clock 0) ids),
      0,
      newer-IsRecent (clock 0) ids,
    ),
    one_by_one-IsAllowed clock (sort (older (clock 0) ids)),
  )
  | inr few ↦
      rw few (one_by_one-IsAllowed clock (sort (newer (clock 0) ids ++ older (clock 0) ids)))
]

IsAllowed-later :
    (clock : ℕ → ℕ) (rs : List Request)
    → All (IsAllowed (λ k. clock (k + 1))) rs
    → All (IsAllowed clock) rs
unfolding IsAllowed
IsAllowed-later clock [] h = tt
IsAllowed-later clock (bulk_delete ids ∷ rs) (r, h) =
    ((r.0, r.1, r.2 + 1, r.3), IsAllowed-later clock rs h)
IsAllowed-later clock (delete_message id ∷ rs) (r, h) = (tt, IsAllowed-later clock rs h)

delete_loop-IsAllowed :
    (fuel : ℕ) (clock : ℕ → ℕ) (ids : List ℕ) → All (IsAllowed clock) (delete_loop fuel clock ids)
unfolding delete_loop
delete_loop-IsAllowed zero clock ids = tt
delete_loop-IsAllowed (suc fuel) clock [] = tt
delete_loop-IsAllowed (suc fuel) clock (id ∷ ids) =
    let n = min (length (id ∷ ids)) 100 in
    All-append (IsAllowed clock) (delete_batch (clock 0) (take n (id ∷ ids)))
      (delete_loop fuel (λ k. clock (k + 1)) (drop n (id ∷ ids)))
      (delete_batch-IsAllowed clock (take n (id ∷ ids)) (omega (arith, length-take n (id ∷ ids))))
      (IsAllowed-later clock (delete_loop fuel (λ k. clock (k + 1)) (drop n (id ∷ ids)))
        (delete_loop-IsAllowed fuel (λ k. clock (k + 1)) (drop n (id ∷ ids))))

-- Each bulk deletion of `DeleteMessages` keeps Discord's limits: from 2 to 100 ids, none of them
-- older than two weeks.
delete_messages-IsAllowed :
    (clock : ℕ → ℕ) (msg_ids : List ℕ) → All (IsAllowed clock) (delete_messages clock msg_ids)
unfolding delete_messages
delete_messages-IsAllowed clock msg_ids = delete_loop-IsAllowed (length msg_ids) clock msg_ids
