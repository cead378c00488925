-- ===== src/Gateway/EventExamples.antt =====
-- Events on a concrete client.
use greek_bot.Prelude.{ℕ, ◌≡◌, refl, List, [], ◌∷◌, true, false, none, some, codes, Bool, ◌==◌}
use greek_bot.Prelude.Table.{find}
use greek_bot.Prelude.{length, if◌then◌else◌}
use greek_bot.Gateway.Steps.{initial}
use greek_bot.Gateway.EventTypes.{EventType, Handler, event_type}
use greek_bot.Gateway.Events.{
  Event, Client, refused, process_event, done, process_type, process_ready, call,
}
use greek_bot.Gateway.ChunkEvents.{process_event-chunk, handed, ending_of}
use greek_bot.Members.Chunks.{requested, on_chunk}

abbrev calm : Handler → Bool
calm h = false

-- A hash by the length of the name.
abbrev hash : List ℕ → ℕ
hash name = if length name == 5 then 0xDFC1471F else if length name == 19 then 0x343F4BC5 else 0

abbrev client : Client ℕ
client = record {
  gateway = initial;
  application = none;
  pending = 1 ∷ 2 ∷ [];
  served = [];
  requests = (7, requested 0) ∷ [];
}

abbrev ready_event : Event ℕ
ready_event = record {
  sequence = some 1;
  name = some (codes "READY");
  object = true;
  session = some 11;
  url = some 12;
  application = some 13;
  arguments = true;
  interaction = none;
  opcode = none;
  nonce = none;
  chunk = none;
}

-- A chunk for a request that is not there any more.
abbrev late_chunk : Event ℕ
late_chunk = record ready_event {
  name = some (codes "GUILD_MEMBERS_CHUNK");
  nonce = some 8;
  chunk = some (record { index = 0; count = 1; members = 5 ∷ [] });
}

abbrev unnamed : Event ℕ
unnamed = record ready_event { name = none }

nameless_ending : (process_event hash calm unnamed client).ending ≡ refused
unfolding process_event
nameless_ending = refl

ready_called : (process_event hash calm ready_event client).called ≡ some Handler.on_ready
unfolding process_event process_type event_type process_ready call
ready_called = refl

ready_done : (process_event hash calm ready_event client).ending ≡ done
unfolding process_event process_type event_type process_ready call
ready_done = refl

is_chunk : event_type (hash (codes "GUILD_MEMBERS_CHUNK")) ≡ EventType.guild_members_chunk
unfolding event_type
is_chunk = refl

process_event-chunk_example :
    (find 7 (process_event hash calm late_chunk client).client.requests
      ≡ handed (on_chunk late_chunk.chunk) (8 == 7) (find 7 client.requests))
    × ((process_event hash calm late_chunk client).ending ≡ ending_of (find 8 client.requests))
process_event-chunk_example =
    process_event-chunk hash calm late_chunk client 1 (codes "GUILD_MEMBERS_CHUNK") 8 7 refl refl
      refl is_chunk refl
