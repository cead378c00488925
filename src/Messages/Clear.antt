-- ===== src/Messages/Clear.antt =====
-- `process_clear` and `process_dismiss` of GreekBot/GreekBot_Clear.cpp, where no request fails.
use greek_bot.Prelude.{
  ℕ, ◌^◌, ◌≤◌, ◌≡◌, refl, ap, ◌∙◌, Bool, true, false, not, ◌&&◌, List, [], ◌∷◌, Option, none, some,
  ◌==◌, ltb, if◌then◌else◌, length, take, is_empty, max, min, arith,
}
use greek_bot.Messages.Deletion.{Request, delete_messages}
use greek_bot.Messages.Batches.{count, deleted, delete_messages_complete}
use greek_bot.Messages.History.{Pages, get_channel_messages}
use greek_bot.Messages.Before.{IsHistory, before}
use greek_bot.Messages.Paging.{get_channel_messages_lem}

-- `std::clamp(num, 1, 100)`, for the 32 bits of an `int`.
unfoldable pub clamp : ℕ → ℕ
clamp num = if ltb num (2 ^ 31) then max 1 (min num 100) else 1

pub data ClearReply : Type 0 where
  missing_permission : ClearReply
  nothing_to_delete : ClearReply
  i_deleted : ℕ → ClearReply

-- The requests of the deletion and the reply; `may_manage` is the permission to manage messages.
unfoldable pub process_clear : Pages → (ℕ → ℕ) → Bool → ℕ → List Request × ClearReply
unfolding clamp get_channel_messages delete_messages
process_clear page clock may_manage num =
    let ids = get_channel_messages page (clamp num) in
    if not may_manage
    then ([], missing_permission)
    else if is_empty ids
    then ([], nothing_to_delete)
    else (delete_messages clock ids, i_deleted (length ids))

-- Whether the message is deleted; `may_manage` is a member's permission, if there is a member.
unfoldable pub process_dismiss : ℕ → ℕ → Option Bool → Bool
process_dismiss invoker user none = true
process_dismiss invoker user (some may_manage) =
    if not (invoker == user) && not may_manage then false else true

clamp_bounds : (num : ℕ) → (1 ≤ clamp num) × (clamp num ≤ 100)
unfolding clamp
clamp_bounds num = ground arith

-- What is deleted and said of the ids.
abbrev cleared : (ℕ → ℕ) → List ℕ → List Request × ClearReply
cleared clock ids =
    if is_empty ids
    then ([], nothing_to_delete)
    else (delete_messages clock ids, i_deleted (length ids))

cleared_lem :
    (x : ℕ) (clock : ℕ → ℕ) (ids : List ℕ)
    → (count x (deleted (cleared clock ids).0) ≡ count x ids)
      × ((cleared clock ids).1
          ≡ (if is_empty ids then nothing_to_delete else i_deleted (length ids)))
unfolding count deleted
cleared_lem x clock [] = (refl, refl)
cleared_lem x clock (id ∷ ids) = (delete_messages_complete x clock (id ∷ ids), refl)

module _ (page : Pages) (h : List ℕ) (history : IsHistory h)
    (first_page : (n : ℕ) → n ≤ 100 → page none n ≡ take n h)
    (later_page : (b n : ℕ) → n ≤ 100 → page (some b) n ≡ take n (before b h)) where
  -- If Discord answers each request of at most 100 messages with the newest messages of an unchanging
  -- history, up to the request's limit, then `/clear` by a member who may manage messages deletes each of
  -- the newest messages of the channel once and no other, at least 1 and at most 100 of them, and says how
  -- many they are.
  pub process_clear_lem :
      (clock : ℕ → ℕ) (num x : ℕ)
      → (count x (deleted (process_clear page clock true num).0) ≡ count x (take (clamp num) h))
        × ((process_clear page clock true num).1 ≡ (
            if is_empty (take (clamp num) h)
            then nothing_to_delete
            else i_deleted (length (take (clamp num) h))))
        × (1 ≤ clamp num)
        × (clamp num ≤ 100)
  unfolding process_clear
  process_clear_lem clock num x =
      let same = get_channel_messages_lem page h history first_page later_page (clamp num) in
      let (one, other) = cleared_lem x clock (get_channel_messages page (clamp num)) in
      (
        one ∙ ap (count x) same,
        other ∙ ap (λ ids. if is_empty ids then nothing_to_delete else i_deleted (length ids)) same,
        (clamp_bounds num).0,
        (clamp_bounds num).1,
      )
