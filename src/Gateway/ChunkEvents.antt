-- ===== src/Gateway/ChunkEvents.antt =====
-- The chunks of requests for members.
use greek_bot.Prelude.{
  ℕ, ◌≡◌, refl, sym, ap, ◌∙◌, List, Option, none, some, ◌==◌, if◌then◌else◌, ==_iff, Option-cases,
  Bool-cases, inl, inr, Bool, true, false,
}
use greek_bot.Prelude.Table.{find, find-put}
use greek_bot.Gateway.EventTypes.{EventType, Handler, event_type}
use greek_bot.Gateway.Events.{
  Event, Client, Ending, refused, done, Processed, process_event, process_type, update_request,
}
use greek_bot.Members.Chunks.{MembersRequest, on_chunk}

-- What becomes of a request, which is the one that is meant or another.
abbrev pub handed :
    {Member : Type 0}
    → (MembersRequest Member → MembersRequest Member)
    → Bool
    → Option (MembersRequest Member)
    → Option (MembersRequest Member)
handed f meant none = none
handed f meant (some r) = some (if meant then f r else r)

-- How the event ends.
abbrev pub ending_of : {Member : Type 0} → Option (MembersRequest Member) → Ending
ending_of none = refused
ending_of (some r) = done

module _ {Member : Type 0} (e : Event Member) (c : Client Member) (nonce : ℕ) where
  updated :
      (update_request (on_chunk e.chunk) (some nonce) c).ending ≡ ending_of (find nonce c.requests)
  unfolding update_request
  updated = elim (Option-cases (find nonce c.requests)) [
    | inl q ↦ rw (update_request, q) refl
    | inr (r, q) ↦ rw (update_request, q) refl
  ]

  same_entry : (j : ℕ) → (nonce == j) ≡ true → find nonce c.requests ≡ find j c.requests
  same_entry j p = ap (λ i. find i c.requests) ((==_iff nonce j).0 p)

  not_handed : (o : Option (MembersRequest Member)) → o ≡ handed (on_chunk e.chunk) false o
  not_handed none = refl
  not_handed (some r) = refl

  without_entry :
      (j : ℕ)
      → find nonce c.requests ≡ none
      → find j c.requests ≡ handed (on_chunk e.chunk) (nonce == j) (find j c.requests)
  without_entry j q = elim (Bool-cases (nonce == j)) [
    | inl same ↦
        let absent : find j c.requests ≡ none = sym (same_entry j same) ∙ q in
        rw same (absent ∙ sym (ap (handed (on_chunk e.chunk) true) absent))
    | inr other ↦ rw other (not_handed (find j c.requests))
  ]

  with_entry :
      (j : ℕ) (r : MembersRequest Member)
      → find nonce c.requests ≡ some r
      → (if nonce == j then some (on_chunk e.chunk r) else find j c.requests)
        ≡ handed (on_chunk e.chunk) (nonce == j) (find j c.requests)
  with_entry j r q = elim (Bool-cases (nonce == j)) [
    | inl same ↦ rw same (sym (ap (handed (on_chunk e.chunk) true) (sym (same_entry j same) ∙ q)))
    | inr other ↦ rw other (not_handed (find j c.requests))
  ]

  delivered :
      (j : ℕ)
      → find j (update_request (on_chunk e.chunk) (some nonce) c).client.requests
        ≡ handed (on_chunk e.chunk) (nonce == j) (find j c.requests)
  unfolding update_request
  delivered j = elim (Option-cases (find nonce c.requests)) [
    | inl q ↦ rw (update_request, q) (without_entry j q)
    | inr (r, q) ↦
        rw (update_request, q) (find-put j nonce (on_chunk e.chunk r) c.requests ∙ with_entry j r q)
  ]

module _ {Member : Type 0} (crc32 : List ℕ → ℕ) (throws : Handler → Bool) (e : Event Member)
    (c : Client Member) (seq : ℕ) (name : List ℕ) (nonce : ℕ) (qs : e.sequence ≡ some seq)
    (qn : e.name ≡ some name) (qo : e.object ≡ true)
    (qt : event_type (crc32 name) ≡ EventType.guild_members_chunk) (qk : e.nonce ≡ some nonce) where
  abbrev counted : Client Member
  counted = record c { gateway = record c.gateway { last_sequence = seq } }

  reaches_entry :
      process_event crc32 throws e c ≡ update_request (on_chunk e.chunk) (some nonce) counted
  unfolding process_event process_type
  reaches_entry = simp (process_event, qs, qn, qo, qt, qk) refl

-- A chunk is handed to the request with its nonce and to no other. Without such a request, as when its
-- generator has ended before all chunks arrived, the session is restarted.
pub process_event-chunk :
    {Member : Type 0} (crc32 : List ℕ → ℕ) (throws : Handler → Bool) (e : Event Member)
    (c : Client Member) (seq : ℕ) (name : List ℕ) (nonce j : ℕ)
    → e.sequence ≡ some seq
    → e.name ≡ some name
    → e.object ≡ true
    → event_type (crc32 name) ≡ EventType.guild_members_chunk
    → e.nonce ≡ some nonce
    → (find j (process_event crc32 throws e c).client.requests
        ≡ handed (on_chunk e.chunk) (nonce == j) (find j c.requests))
      × ((process_event crc32 throws e c).ending ≡ ending_of (find nonce c.requests))
process_event-chunk {Member} crc32 throws e c seq name nonce j qs qn qo qt qk =
    let whole = reaches_entry crc32 throws e c seq name nonce qs qn qo qt qk in
    let k = record c { gateway = record c.gateway { last_sequence = seq } } in
    (
      ap (λ (p : Processed Member). find j p.client.requests) whole ∙ delivered e k nonce j,
      ap (λ (p : Processed Member). p.ending) whole ∙ updated e k nonce,
    )
