-- ===== src/Gateway/OtherEvents.antt =====
-- The events but READY leave the session's attributes as they are.
use greek_bot.Prelude.{
  true, false, ◌≡◌, refl, Bool, none, if-holds, Bool-cases, inl, inr, arith, ◌≢◌, Option, ◌==◌, ℕ,
  ◌||◌, some, Option-holds, if◌then◌else◌,
}
use greek_bot.Gateway.EventTypes.{Handler, EventType}
use greek_bot.Gateway.Events.{
  Event, Client, refused, Processed, call_parsed, call, update_request, process_rate_limited,
  process_type, Ending, process_interaction_create, ended, done, rgm_resume, handler_failed,
}
use greek_bot.Members.Chunks.{MembersRequest, on_chunk, on_rate_limited}
use greek_bot.Prelude.Table.{find}

pub not_refused :
    (thrown : Bool) → ◌≢◌ {A = Ending} (if thrown then handler_failed else done) refused
not_refused true q = ground (arith, q)
not_refused false q = ground (arith, q)

module _ {Member : Type 0} (c : Client Member) where
  -- The session's attributes are as they were, and an exception before the handler means no handler.
  pub record IsOther (p : Processed Member) : Type 0 where
    pub same : p.client.gateway ≡ c.gateway
    pub first : p.ending ≡ refused → p.called ≡ none

  ended-IsOther : (ending : Ending) → IsOther (ended ending c)
  ended-IsOther ending = record { same = refl; first = λ q. refl }

  update_request-IsOther :
      (f : MembersRequest Member → MembersRequest Member) (nonce : Option ℕ)
      → IsOther (update_request f nonce c)
  unfolding update_request
  update_request-IsOther f none = ended-IsOther refused
  update_request-IsOther f (some nonce) =
      Option-holds IsOther (find nonce c.requests) _ _ (λ q. ended-IsOther refused)
        (λ r q. record { same = refl; first = λ q. refl })

module _ {Member : Type 0} (throws : Handler → Bool) (e : Event Member) (c : Client Member) where
  call_parsed-IsOther : (h : Handler) → IsOther c (call_parsed throws h e c)
  unfolding call_parsed call
  call_parsed-IsOther h =
      if-holds (IsOther c) e.arguments _ _ (λ p. called)
        (λ p. record { same = refl; first = λ q. refl })
    where
      called : IsOther c (call throws h c)
      called = record {
        same = refl;
        first = λ q. elim (Bool-cases (throws h)) [
          | inl t ↦ absurd (ground (arith, t, q))
          | inr t ↦ absurd (ground (arith, t, q))
        ];
      }

  interaction-IsOther : IsOther c (process_interaction_create throws e c)
  unfolding process_interaction_create
  interaction-IsOther =
      Option-holds (IsOther c) e.interaction _ _ (λ q. ended-IsOther c refused)
        (λ type q.
          if-holds (IsOther c) ((type == 2) || ((type == 3) || (type == 5))) _ _
            (λ p. call_parsed-IsOther Handler.on_interaction_create) (λ p. ended-IsOther c done))

  rate_limited-IsOther : IsOther c (process_rate_limited e c)
  unfolding process_rate_limited
  rate_limited-IsOther =
      Option-holds (IsOther c) e.opcode _ _ (λ q. ended-IsOther c refused)
        (λ op q.
          if-holds (IsOther c) (op == 8) _ _ (λ p. update_request-IsOther c on_rate_limited e.nonce)
            (λ p. ended-IsOther c done))

  pub process_type-IsOther :
      (type : EventType) → type ≢ EventType.ready_event → IsOther c (process_type throws type e c)
  unfolding process_type call rgm_resume
  process_type-IsOther EventType.ready_event ne = absurd (ne refl)
  process_type-IsOther EventType.resumed ne = record { same = refl; first = λ q. refl }
  process_type-IsOther EventType.interaction_create ne = interaction-IsOther
  process_type-IsOther EventType.guild_members_chunk ne =
      update_request-IsOther c (on_chunk e.chunk) e.nonce
  process_type-IsOther EventType.rate_limited ne = rate_limited-IsOther
  process_type-IsOther EventType.user_update ne =
      if-holds (IsOther c) e.arguments _ _
        (λ p. record {
          same = refl;
          first = λ q. absurd (not_refused (throws Handler.on_user_update) q);
        })
        (λ p. ended-IsOther c refused)
  process_type-IsOther EventType.unhandled ne = ended-IsOther c done
  process_type-IsOther EventType.guild_create ne = call_parsed-IsOther Handler.on_guild_create
  process_type-IsOther EventType.guild_role_create ne =
      call_parsed-IsOther Handler.on_guild_role_create
  process_type-IsOther EventType.guild_role_update ne =
      call_parsed-IsOther Handler.on_guild_role_update
  process_type-IsOther EventType.guild_role_delete ne =
      call_parsed-IsOther Handler.on_guild_role_delete
  process_type-IsOther EventType.guild_member_add ne =
      call_parsed-IsOther Handler.on_guild_member_add
  process_type-IsOther EventType.guild_member_update ne =
      call_parsed-IsOther Handler.on_guild_member_update
  process_type-IsOther EventType.guild_member_remove ne =
      call_parsed-IsOther Handler.on_guild_member_remove
  process_type-IsOther EventType.message_create ne = call_parsed-IsOther Handler.on_message_create
  process_type-IsOther EventType.message_update ne = call_parsed-IsOther Handler.on_message_update
  process_type-IsOther EventType.message_delete ne = call_parsed-IsOther Handler.on_message_delete
  process_type-IsOther EventType.message_delete_bulk ne =
      call_parsed-IsOther Handler.on_message_delete_bulk
  process_type-IsOther EventType.message_reaction_add ne =
      call_parsed-IsOther Handler.on_message_reaction_add
  process_type-IsOther EventType.message_reaction_remove ne =
      call_parsed-IsOther Handler.on_message_reaction_remove
  process_type-IsOther EventType.message_reaction_remove_all ne =
      call_parsed-IsOther Handler.on_message_reaction_remove_all
  process_type-IsOther EventType.message_reaction_remove_emoji ne =
      call_parsed-IsOther Handler.on_message_reaction_remove_emoji
  process_type-IsOther EventType.voice_state_update ne =
      call_parsed-IsOther Handler.on_voice_state_update
