-- ===== src/Gateway/Dispatch.antt =====
-- What an event does to the session.
use greek_bot.Prelude.{
  ◌≡◌, refl, Bool, none, if-holds, ◌≢◌, Option, ℕ, some, Option-holds, List, ap, subst, sym, ◌∙◌,
}
use greek_bot.Gateway.EventTypes.{Handler, EventType, event_type}
use greek_bot.Gateway.Events.{
  Event, Client, refused, Processed, call, process_type, ended, rgm_resume, process_ready,
  process_event,
}
use greek_bot.Gateway.Handlers.{Dispatch, ready, other_event, process_event as keep_event}
use greek_bot.Gateway.State.{Gateway}
use greek_bot.Gateway.OtherEvents.{not_refused, process_type-IsOther}

abbrev located : Option ℕ → Option ℕ → Dispatch
located (some id) (some url) = ready id url
located (some id) none = other_event
located none url = other_event

-- What the handlers of the session keep of an event.
abbrev pub meaning : {Member : Type 0} → EventType → Event Member → Dispatch
meaning EventType.ready_event e = located e.session e.url
meaning _ e = other_event

module _ {Member : Type 0} (throws : Handler → Bool) (e : Event Member) (c : Client Member) where
  -- The session's attributes are those of READY unless it was refused.
  record IsReady (p : Processed Member) : Type 0 where
    set :
        p.ending ≢ refused
        → p.client.gateway ≡ keep_event c.gateway.last_sequence (located e.session e.url) c.gateway
    first : p.ending ≡ refused → p.called ≡ none

  refused-IsReady : (k : Client Member) → IsReady (ended refused k)
  refused-IsReady k = record { set = λ ne. absurd (ne refl); first = λ q. refl }

  process_ready-IsReady : IsReady (process_ready throws e c)
  unfolding process_ready rgm_resume call
  process_ready-IsReady =
      Option-holds IsReady e.session _ _ (λ q. refused-IsReady c)
        (λ id q.
          Option-holds IsReady e.url _ _ (λ q. refused-IsReady _)
            (λ url q'.
              Option-holds IsReady e.application _ _ (λ q. refused-IsReady _)
                (λ app q''.
                  if-holds IsReady e.arguments _ _
                    (λ a. record {
                      set = λ ne.
                          ap (λ d. keep_event c.gateway.last_sequence d c.gateway)
                            (sym (ap (λ s. located s e.url) q ∙ ap (located (some id)) q'));
                      first = λ r. absurd (not_refused (throws Handler.on_ready) r);
                    })
                    (λ a. refused-IsReady _))))

pub EventType-discrete : Discrete EventType
EventType-discrete = hlevel

meaning-other :
    {Member : Type 0} (type : EventType) (e : Event Member)
    → type ≢ EventType.ready_event
    → meaning type e ≡ other_event
meaning-other EventType.ready_event e ne = absurd (ne refl)
meaning-other _ e ne = refl

-- What holds of an event that gets to the switch.
record IsProcessed {Member : Type 0} (type : EventType) (e : Event Member) (k : Client Member)
    (p : Processed Member) : Type 0 where
  first : p.ending ≡ refused → p.called ≡ none
  kept :
      p.ending ≢ refused
      → p.client.gateway ≡ keep_event k.gateway.last_sequence (meaning type e) k.gateway

process_type-IsProcessed :
    {Member : Type 0} (throws : Handler → Bool) (type : EventType) (e : Event Member)
    (k : Client Member)
    → IsProcessed type e k (process_type throws type e k)
process_type-IsProcessed throws type e k = elim (EventType-discrete type EventType.ready_event) [
  | yes q ↦ subst (λ t. IsProcessed t e k (process_type throws t e k)) (sym q) is_ready
  | no ne ↦
      let v = process_type-IsOther throws e k type ne in
      record {
        first = v.first;
        kept = λ r.
            v.same
            ∙ ap (λ d. keep_event k.gateway.last_sequence d k.gateway)
                (sym (meaning-other type e ne));
      }
]
  where
    is_ready : IsProcessed EventType.ready_event e k (process_type throws EventType.ready_event e k)
    is_ready =
        unfold process_type in
        let v = process_ready-IsReady throws e k in record { first = v.first; kept = v.set }

abbrev counted : {Member : Type 0} → ℕ → Client Member → Client Member
counted seq c = record c { gateway = record c.gateway { last_sequence = seq } }

recounted :
    (seq : ℕ) (d : Dispatch) (g : Gateway)
    → keep_event seq d (record g { last_sequence = seq }) ≡ keep_event seq d g
recounted seq (ready id url) g = refl
recounted seq other_event g = refl

-- If an event is refused then no handler of the bot has been called.
process_event-refused :
    {Member : Type 0} (crc32 : List ℕ → ℕ) (throws : Handler → Bool) (e : Event Member)
    (c : Client Member)
    → (process_event crc32 throws e c).ending ≡ refused
    → (process_event crc32 throws e c).called ≡ none
unfolding process_event
process_event-refused {Member} crc32 throws e c =
    Option-holds Uncalled e.sequence _ _ (λ q r. refl)
      (λ seq q.
        Option-holds Uncalled e.name _ _ (λ q r. refl)
          (λ name q'.
            if-holds Uncalled e.object _ _
              (λ o.
                (process_type-IsProcessed throws (event_type (crc32 name)) e (counted seq c)).first)
              (λ o r. refl)))
  where
    Uncalled : Processed Member → Type 0
    Uncalled p = p.ending ≡ refused → p.called ≡ none

-- An event that is not refused does to the session's attributes what the model of the sessions says: it
-- sets the sequence, and READY the session and the url to resume it at.
process_event-keep_event :
    {Member : Type 0} (crc32 : List ℕ → ℕ) (throws : Handler → Bool) (e : Event Member)
    (c : Client Member)
    → (process_event crc32 throws e c).ending ≢ refused
    → (seq : ℕ) × (name : List ℕ) × (e.sequence ≡ some seq)
      × (e.name ≡ some name)
      × ((process_event crc32 throws e c).client.gateway
          ≡ keep_event seq (meaning (event_type (crc32 name)) e) c.gateway)
unfolding process_event
process_event-keep_event {Member} crc32 throws e c =
    Option-holds Kept e.sequence _ _ (λ q ne. absurd (ne refl))
      (λ seq q.
        Option-holds Kept e.name _ _ (λ q' ne. absurd (ne refl))
          (λ name q'.
            if-holds Kept e.object _ _
              (λ o ne. (
                seq,
                name,
                q,
                q',
                (process_type-IsProcessed throws (event_type (crc32 name)) e (counted seq c)).kept
                      ne
                    ∙ recounted seq (meaning (event_type (crc32 name)) e) c.gateway,
              ))
              (λ o ne. absurd (ne refl))))
  where
    Kept : Processed Member → Type 0
    Kept p =
        p.ending ≢ refused
        → (seq : ℕ) × (name : List ℕ) × (e.sequence ≡ some seq)
          × (e.name ≡ some name)
          × (p.client.gateway ≡ keep_event seq (meaning (event_type (crc32 name)) e) c.gateway)
