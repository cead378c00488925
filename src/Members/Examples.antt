-- ===== src/Members/Examples.antt =====
-- Members whose number is twice their id.
use greek_bot.Prelude.{length, ℕ, ◌*◌, ◌≡◌, refl, List, [], ◌∷◌, map}
use greek_bot.Prelude.{◌++◌, ◌≢◌, some, false, arith}
use greek_bot.Members.Chunks.{
  Chunk, MembersRequest, RequestError, on_chunk, go_on, requested, take_chunk, suspend,
  resume_generator, rgm_timeout, ended_by, finished, resumed_ended,
}
use greek_bot.Members.Series.{Delivered, sent, arrives, turns, all_members}
use greek_bot.Members.Delivery.{members_in_order, timeout_resumes_ended}
use greek_bot.Members.Batches.{IsFetch, request_guild_members, request_guild_members-IsFetch}

abbrev three_ids : List ℕ
three_ids = 7 ∷ 9 ∷ 4 ∷ []

abbrev doubled : List ℕ → List ℕ
doubled ids = map (λ i. i * 2) ids

three_members : (request_guild_members doubled three_ids).members ≡ 14 ∷ 18 ∷ 8 ∷ []
unfolding request_guild_members
three_members = refl

request_guild_members-IsFetch_example :
    IsFetch doubled three_ids (request_guild_members doubled three_ids)
request_guild_members-IsFetch_example = request_guild_members-IsFetch doubled three_ids

-- Two chunks, of one member each.
abbrev first_chunk : Chunk ℕ
first_chunk = record { index = 0; count = 2; members = 14 ∷ [] }

abbrev second_chunk : Chunk ℕ
second_chunk = record { index = 1; count = 2; members = 18 ∷ [] }

abbrev two_chunks : List (Chunk ℕ)
two_chunks = first_chunk ∷ second_chunk ∷ []

-- The second arrives while the generator waits for it.
abbrev all_arrived : MembersRequest ℕ
all_arrived =
    on_chunk (some second_chunk) (go_on 6 (go_on 5 (on_chunk (some first_chunk) (requested 3))))

all_arrived-Delivered : Delivered 2 two_chunks all_arrived
all_arrived-Delivered =
    arrives second_chunk (turns 6 (turns 5 (arrives first_chunk (sent 3) refl refl (omega arith))))
      refl refl (omega arith)

abbrev delivered : MembersRequest ℕ
delivered = go_on 9 (go_on 8 all_arrived)

both_yielded : delivered.yielded ≡ 14 ∷ 18 ∷ []
unfolding go_on on_chunk requested take_chunk suspend resume_generator
both_yielded = refl

members_in_order_example :
    (delivered.yielded ++ all_members delivered.chunks ≡ 14 ∷ 18 ∷ [])
    × ((e : RequestError) → delivered.generator ≢ ended_by e)
    × (length two_chunks ≡ 2 → delivered.coro ≡ false)
    × (delivered.generator ≡ finished
        → (length two_chunks ≡ 2) × (delivered.yielded ≡ 14 ∷ 18 ∷ []))
members_in_order_example =
    members_in_order 2 two_chunks delivered (omega arith) (turns 9 (turns 8 all_arrived-Delivered))

timeout_resumes_ended_example :
    (on_chunk (some first_chunk) (rgm_timeout 200 (requested {Member = ℕ} 3))).generator
    ≡ resumed_ended
unfolding requested suspend
timeout_resumes_ended_example =
    timeout_resumes_ended 2 200 [] first_chunk (requested 3) (sent 3) refl (omega arith)
