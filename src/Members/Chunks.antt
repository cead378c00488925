-- ===== src/Members/Chunks.antt =====
-- Discord/Gateway/GatewayGuildMembers.cpp: one request for members, whose chunks arrive as events. The
-- state is its entry in `m_rgm_entries` and how far its generator is.
use greek_bot.Prelude.{
  ℕ, suc, ◌-◌, Bool, true, false, List, [], ◌∷◌, ◌++◌, Option, none, some, if◌then◌else◌, ltb, ◌==◌,
  ◌&&◌,
}

-- xGatewaySessionResetError, xGatewayTimeoutError, xRateLimitError, an event that cannot be parsed, and
-- xGatewayEventError.
pub data RequestError : Type 0 where
  reset_error : RequestError
  timeout_error : RequestError
  rate_limit_error : RequestError
  parse_error : RequestError
  event_error : RequestError

-- `cGuildMembersChunk`.
pub record Chunk (Member : Type 0) : Type 0 where
  pub index : ℕ
  pub count : ℕ
  pub members : List Member

-- It waits for the first chunk; it is about to take chunk i of n; it waits for chunk i of n; its body
-- has ended. `resumed_ended`: it was resumed after that, which is undefined.
pub data Generator : Type 0 where
  awaits_first : Generator
  takes : ℕ → ℕ → Generator
  awaits : ℕ → ℕ → Generator
  finished : Generator
  ended_by : RequestError → Generator
  resumed_ended : Generator

pub record MembersRequest (Member : Type 0) : Type 0 where
  pub chunks : List (Chunk Member)
  pub coro : Bool
  pub except : Option RequestError
  pub started_at : ℕ
  pub registered : Bool
  pub generator : Generator
  pub yielded : List Member

module _ {Member : Type 0} where
  -- `await_suspend`, of a generator that would wait as given.
  unfoldable pub suspend : ℕ → Generator → MembersRequest Member → MembersRequest Member
  suspend now g s = elim s.except [
    | some e ↦ record s { generator = ended_by e; registered = true }
    | none ↦ record s { generator = g; registered = true; coro = true; started_at = now }
  ]

  -- The state after the request was sent.
  unfoldable pub requested : ℕ → MembersRequest Member
  unfolding suspend
  requested now = suspend now awaits_first (record {
    chunks = [];
    coro = false;
    except = none;
    started_at = 0;
    registered = false;
    generator = awaits_first;
    yielded = [];
  })

  abbrev pub front_count : List (Chunk Member) → ℕ
  front_count [] = 0
  front_count (c ∷ cs) = c.count

  -- `await_resume`. An exception leaves `coro` as it is.
  abbrev pub resume_with : Generator → MembersRequest Member → MembersRequest Member
  resume_with g s = elim s.except [
    | some e ↦ record s { generator = ended_by e }
    | none ↦ record s { generator = g; coro = false }
  ]

  unfoldable pub resume_generator : MembersRequest Member → MembersRequest Member
  resume_generator s = elim s.generator [
    | awaits_first ↦ resume_with (takes 0 (front_count s.chunks)) s
    | awaits i n ↦ resume_with (takes i n) s
    | takes i n ↦ s
    | finished ↦ record s { generator = resumed_ended }
    | ended_by e ↦ record s { generator = resumed_ended }
    | resumed_ended ↦ s
  ]

  -- Resumes the generator if the entry has it.
  abbrev pub wake : MembersRequest Member → MembersRequest Member
  wake s = if s.coro then resume_generator s else s

  -- The events GUILD_MEMBERS_CHUNK and RATE_LIMITED; without an entry they are refused.
  unfoldable pub on_chunk : Option (Chunk Member) → MembersRequest Member → MembersRequest Member
  unfolding resume_generator
  on_chunk none s = if s.registered then wake (record s { except = some parse_error }) else s
  on_chunk (some c) s =
      if s.registered then wake (record s { chunks = s.chunks ++ (c ∷ []) }) else s

  unfoldable pub on_rate_limited : MembersRequest Member → MembersRequest Member
  unfolding resume_generator
  on_rate_limited s = if s.registered then wake (record s { except = some rate_limit_error }) else s

  unfoldable pub rgm_reset : MembersRequest Member → MembersRequest Member
  unfolding resume_generator
  rgm_reset s = if s.registered then wake (record s { except = some reset_error }) else s

  -- In seconds; 2 minutes are over.
  unfoldable pub rgm_timeout : ℕ → MembersRequest Member → MembersRequest Member
  unfolding resume_generator
  rgm_timeout now s =
      if s.registered && (s.coro && ltb 120 (now - s.started_at))
      then wake (record s { except = some timeout_error })
      else s

  -- The deferred end of the entry.
  unfoldable pub erase_entry : MembersRequest Member → MembersRequest Member
  erase_entry s = record s { registered = false; coro = false }

  -- One turn of the loop, in which all members of a chunk are yielded.
  abbrev pub is_expected : Chunk Member → ℕ → ℕ → Bool
  is_expected c i n = (c.count == n) && ((c.index == i) && ltb c.index n)

  unfoldable pub take_chunk : ℕ → ℕ → ℕ → MembersRequest Member → MembersRequest Member
  unfolding suspend
  take_chunk now i n s = elim s.chunks [
    | [] ↦ suspend now (awaits i n) s
    | c ∷ cs ↦
        if is_expected c i n
        then record s { yielded = s.yielded ++ c.members; chunks = cs; generator = takes (suc i) n }
        else record s { generator = ended_by event_error }
  ]

  unfoldable pub go_on : ℕ → MembersRequest Member → MembersRequest Member
  unfolding take_chunk
  go_on now s = elim s.generator [
    | takes i n ↦ if ltb i n then take_chunk now i n s else record s { generator = finished }
    | awaits_first ↦ s
    | awaits i n ↦ s
    | finished ↦ s
    | ended_by e ↦ s
    | resumed_ended ↦ s
  ]
