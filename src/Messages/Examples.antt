-- ===== src/Messages/Examples.antt =====
-- Deleting and fetching messages, on concrete ids.
use greek_bot.Prelude.{
  ℕ, zero, suc, is_empty, length, true, if◌then◌else◌, ◌*◌, ◌+◌, ◌≡◌, refl, List, [], ◌∷◌, none,
  some, arith, take, All, ◌≤◌, ◌<◌,
}
use greek_bot.Messages.Deletion.{bulk_delete, delete_message, delete_messages, is_newer}
use greek_bot.Messages.Batches.{count, deleted, delete_messages_complete}
use greek_bot.Messages.History.{Pages, get_channel_messages}
use greek_bot.Messages.Before.{IsHistory, before}
use greek_bot.Messages.Paging.{get_channel_messages_lem}
use greek_bot.Messages.Clear.{clamp, process_clear, process_clear_lem, nothing_to_delete, i_deleted}

-- An id at a number of days after 2015, with an increment.
abbrev on_day : ℕ → ℕ → ℕ
on_day days n = days * 86400000 * 4194304 + n

abbrev day_hundred : ℕ → ℕ
day_hundred n = (1420070400000 + 100 * 86400000) * 1000000 + n

abbrev mixed : List ℕ
mixed = on_day 50 1 ∷ on_day 99 2 ∷ on_day 60 3 ∷ on_day 98 4 ∷ []

-- Two new messages go in bulk, and two old ones one by one, the newest first.
mixed_requests :
    delete_messages day_hundred mixed
    ≡ bulk_delete (on_day 99 2 ∷ on_day 98 4 ∷ [])
      ∷ delete_message (on_day 60 3)
      ∷ delete_message (on_day 50 1)
      ∷ []
unfolding delete_messages is_newer
mixed_requests = refl

delete_messages_complete_example :
    count (on_day 60 3) (deleted (delete_messages day_hundred mixed)) ≡ 1
unfolding count
delete_messages_complete_example = delete_messages_complete (on_day 60 3) day_hundred mixed

-- The ids below `n`, the greatest first.
abbrev down_from : ℕ → List ℕ
down_from zero = []
down_from (suc n) = n ∷ down_from n

down_from-below : (n m : ℕ) → n ≤ m → All (λ y. y < m) (down_from n)
down_from-below zero m le = tt
down_from-below (suc n) m le = (omega arith, down_from-below n m (omega arith))

down_from-IsHistory : (n : ℕ) → IsHistory (down_from n)
down_from-IsHistory zero = tt
down_from-IsHistory (suc n) = (down_from-below n n (omega arith), down_from-IsHistory n)

abbrev channel : Pages
channel none n = take n (down_from 250)
channel (some b) n = take n (before b (down_from 250))

get_channel_messages_lem_example : get_channel_messages channel 230 ≡ take 230 (down_from 250)
get_channel_messages_lem_example =
    get_channel_messages_lem channel (down_from 250) (down_from-IsHistory 250) (λ n le. refl)
      (λ b n le. refl) 230

-- `/clear 3` deletes message 247, among others, once.
process_clear_lem_example :
    (count 247 (deleted (process_clear channel day_hundred true 3).0)
      ≡ count 247 (take (clamp 3) (down_from 250)))
    × ((process_clear channel day_hundred true 3).1 ≡ (
        if is_empty (take (clamp 3) (down_from 250))
        then nothing_to_delete
        else i_deleted (length (take (clamp 3) (down_from 250)))))
    × (1 ≤ clamp 3)
    × (clamp 3 ≤ 100)
process_clear_lem_example =
    process_clear_lem channel (down_from 250) (down_from-IsHistory 250) (λ n le. refl)
      (λ b n le. refl) day_hundred 3 247

-- More than 100 messages are not cleared at once.
at_most_hundred : (process_clear channel day_hundred true 4000).1 ≡ i_deleted 100
unfolding process_clear
at_most_hundred = refl
