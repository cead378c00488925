-- ===== src/Gateway/Events.antt =====
-- `process_event` of Discord/Gateway/GatewayEvents.cpp. What the accessors and constructors make of the
-- event's JSON are the fields of the event: `none` and `false` where they throw. While the events of a
-- session are processed it is saved, so that a request that rgm_resume resumes goes on.
use greek_bot.Prelude.{ℕ, Bool, ◌||◌, List, [], ◌++◌, Option, none, some, ◌==◌, if◌then◌else◌}
use greek_bot.Prelude.Table.{find, put}
use greek_bot.Gateway.State.{Gateway}
use greek_bot.Gateway.EventTypes.{EventType, Handler, event_type}
use greek_bot.Members.Chunks.{Chunk, MembersRequest, on_chunk, on_rate_limited}

-- `arguments`: whether all arguments of the handler can be parsed; `interaction` the type of an
-- interaction; `opcode` and `nonce` those of a rate limit, or the nonce of a chunk; `chunk` is none
-- if the chunk itself cannot be parsed.
pub record Event (Member : Type 0) : Type 0 where
  pub sequence : Option ℕ
  pub name : Option (List ℕ)
  pub object : Bool
  pub session : Option ℕ
  pub url : Option ℕ
  pub application : Option ℕ
  pub arguments : Bool
  pub interaction : Option ℕ
  pub opcode : Option ℕ
  pub nonce : Option ℕ
  pub chunk : Option (Chunk Member)

-- The gateway, `m_application`, the requests that wait for a session and those that went on, and
-- `m_rgm_entries`.
pub record Client (Member : Type 0) : Type 0 where
  pub gateway : Gateway
  pub application : Option ℕ
  pub pending : List ℕ
  pub served : List ℕ
  pub requests : List (ℕ × MembersRequest Member)

-- How an event ends: `refused` is an exception before a handler of the bot is called, after which the
-- restart of the session is deferred, and `handler_failed` one of the handler, which is logged.
pub data Ending : Type 0 where
  done : Ending
  refused : Ending
  handler_failed : Ending

pub record Processed (Member : Type 0) : Type 0 where
  pub client : Client Member
  pub called : Option Handler
  pub ending : Ending

module _ {Member : Type 0} where
  abbrev pub ended : Ending → Client Member → Processed Member
  ended ending c = record { client = c; called = none; ending = ending }

  unfoldable pub rgm_resume : Client Member → Client Member
  rgm_resume c = record c { served = c.served ++ c.pending; pending = [] }

  -- `bSuccess` is set, and the handler is called.
  unfoldable pub call : (Handler → Bool) → Handler → Client Member → Processed Member
  call throws h c = record {
    client = c;
    called = some h;
    ending = if throws h then handler_failed else done;
  }

  unfoldable pub call_parsed :
      (Handler → Bool) → Handler → Event Member → Client Member → Processed Member
  unfolding call
  call_parsed throws h e c = if e.arguments then call throws h c else ended refused c

  -- READY sets the attributes one by one.
  unfoldable pub process_ready : (Handler → Bool) → Event Member → Client Member → Processed Member
  unfolding call rgm_resume
  process_ready throws e c = elim e.session [
    | none ↦ ended refused c
    | some id ↦
        let named = record c { gateway = record c.gateway { session_id = some id } } in
        elim e.url [
          | none ↦ ended refused named
          | some url ↦
              let located = record named {
                gateway = record named.gateway { resume_gateway_url = some url };
              } in
              elim e.application [
                | none ↦ ended refused located
                | some app ↦
                    let ready = record located { application = some app } in
                    if e.arguments
                    then call throws Handler.on_ready (rgm_resume ready)
                    else ended refused ready
              ]
        ]
  ]

  unfoldable pub process_interaction_create :
      (Handler → Bool) → Event Member → Client Member → Processed Member
  unfolding call_parsed
  process_interaction_create throws e c = elim e.interaction [
    | none ↦ ended refused c
    | some type ↦
        if (type == 2) || ((type == 3) || (type == 5))
        then call_parsed throws Handler.on_interaction_create e c
        else ended done c
  ]

  -- The entry of a nonce; without one the event is refused.
  unfoldable pub update_request :
      (MembersRequest Member → MembersRequest Member) → Option ℕ → Client Member → Processed Member
  update_request f none c = ended refused c
  update_request f (some nonce) c = elim (find nonce c.requests) [
    | none ↦ ended refused c
    | some r ↦ ended done (record c { requests = put nonce (f r) c.requests })
  ]

  unfoldable pub process_rate_limited : Event Member → Client Member → Processed Member
  unfolding update_request
  process_rate_limited e c = elim e.opcode [
    | none ↦ ended refused c
    | some op ↦ if op == 8 then update_request on_rate_limited e.nonce c else ended done c
  ]

  unfoldable pub process_type :
      (Handler → Bool) → EventType → Event Member → Client Member → Processed Member
  unfolding process_ready process_interaction_create update_request process_rate_limited call_parsed
      rgm_resume
  process_type throws EventType.resumed e c = ended done (rgm_resume c)
  process_type throws EventType.ready_event e c = process_ready throws e c
  process_type throws EventType.interaction_create e c = process_interaction_create throws e c
  process_type throws EventType.guild_members_chunk e c =
      update_request (on_chunk e.chunk) e.nonce c
  process_type throws EventType.rate_limited e c = process_rate_limited e c
  process_type throws EventType.user_update e c =
      if e.arguments
      then call throws Handler.on_user_update (record c { application = none })
      else ended refused c
  process_type throws EventType.guild_create e c = call_parsed throws Handler.on_guild_create e c
  process_type throws EventType.guild_role_create e c =
      call_parsed throws Handler.on_guild_role_create e c
  process_type throws EventType.guild_role_update e c =
      call_parsed throws Handler.on_guild_role_update e c
  process_type throws EventType.guild_role_delete e c =
      call_parsed throws Handler.on_guild_role_delete e c
  process_type throws EventType.guild_member_add e c =
      call_parsed throws Handler.on_guild_member_add e c
  process_type throws EventType.guild_member_update e c =
      call_parsed throws Handler.on_guild_member_update e c
  process_type throws EventType.guild_member_remove e c =
      call_parsed throws Handler.on_guild_member_remove e c
  process_type throws EventType.message_create e c =
      call_parsed throws Handler.on_message_create e c
  process_type throws EventType.message_update e c =
      call_parsed throws Handler.on_message_update e c
  process_type throws EventType.message_delete e c =
      call_parsed throws Handler.on_message_delete e c
  process_type throws EventType.message_delete_bulk e c =
      call_parsed throws Handler.on_message_delete_bulk e c
  process_type throws EventType.message_reaction_add e c =
      call_parsed throws Handler.on_message_reaction_add e c
  process_type throws EventType.message_reaction_remove e c =
      call_parsed throws Handler.on_message_reaction_remove e c
  process_type throws EventType.message_reaction_remove_all e c =
      call_parsed throws Handler.on_message_reaction_remove_all e c
  process_type throws EventType.message_reaction_remove_emoji e c =
      call_parsed throws Handler.on_message_reaction_remove_emoji e c
  process_type throws EventType.voice_state_update e c =
      call_parsed throws Handler.on_voice_state_update e c
  process_type throws EventType.unhandled e c = ended done c

  unfoldable pub process_event :
      (List ℕ → ℕ) → (Handler → Bool) → Event Member → Client Member → Processed Member
  unfolding process_type
  process_event crc32 throws e c = elim e.sequence [
    | none ↦ ended refused c
    | some seq ↦
        let counted = record c { gateway = record c.gateway { last_sequence = seq } } in
        elim e.name [
          | none ↦ ended refused counted
          | some name ↦
              if e.object
              then process_type throws (event_type (crc32 name)) e counted
              else ended refused counted
        ]
  ]
