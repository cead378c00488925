-- ===== src/Messages/History.antt =====
-- `cBot::GetChannelMessages` and `cBot::GetChannelMessagesBefore` of Discord/Bot_ChannelMessages.cpp.
-- A page is what Discord answers to a request for messages: the ids before some message, or of the
-- whole channel, and the limit. The functions are the sequence of messages that the generators yield.
use greek_bot.Prelude.{
  ℕ, zero, suc, ◌-◌, List, [], ◌∷◌, ◌++◌, Option, none, some, ltb, if◌then◌else◌, length,
}

abbrev pub Pages : Type 0
Pages = Option ℕ → ℕ → List ℕ

-- `last_id` and `before_this_message` after a page.
unfoldable pub last_id : ℕ → List ℕ → ℕ
last_id id [] = id
last_id id (x ∷ xs) = last_id x xs

-- The loop for more than 100 messages. Each iteration takes 100 from the limit, so that the limit is
-- enough fuel.
unfoldable pub pages_before : ℕ → Pages → ℕ → ℕ → List ℕ
unfolding last_id
pages_before zero page before limit = []
pages_before (suc fuel) page before limit =
    let batch = page (some before) 100 in
    let next = last_id before batch in
    let more = pages_before fuel page next (limit - 100) in
    if ltb (length batch) 100
    then batch
    else if ltb 100 (limit - 100)
    then batch ++ more
    else batch ++ page (some next) (limit - 100)

unfoldable pub get_channel_messages_before : Pages → ℕ → ℕ → List ℕ
unfolding pages_before
get_channel_messages_before page before zero = []
get_channel_messages_before page before (suc n) =
    if ltb 100 (suc n) then pages_before (suc n) page before (suc n) else page (some before) (suc n)

unfoldable pub get_channel_messages : Pages → ℕ → List ℕ
unfolding get_channel_messages_before
get_channel_messages page zero = []
get_channel_messages page (suc n) =
    let batch = page none 100 in
    let more = get_channel_messages_before page (last_id 0 batch) (suc n - 100) in
    if ltb 100 (suc n)
    then if ltb (length batch) 100 then batch else batch ++ more
    else page none (suc n)
