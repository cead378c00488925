-- ===== src/Gateway/Steps.antt =====
-- The steps that the gateway takes. Asio runs the handlers of the WebSocket strand one at a time, in
-- an order that it chooses.
use greek_bot.Prelude.{ℕ, ◌≡◌, ◌≤◌, false, none, some, [], length, true}
use greek_bot.Prelude.Table.{find}
use greek_bot.Gateway.State.{
  Session, Gateway, request_message, send, run_session, restart, update_session,
}
use greek_bot.Gateway.Handlers.{
  Read, Write, on_read, on_first_read, on_write, on_expire, elapse, connected, retry, retry_over,
  terminate, write_canceled,
}

pub data Step : Gateway → Gateway → Type 0 where
  connects :
      {g : Gateway} (k fetched : ℕ)
      → 1 ≤ g.connecting
      → find k g.sessions ≡ none
      → Step g (connected k fetched g)
  fails : {g : Gateway} (now : ℕ) → 1 ≤ g.connecting → Step g (retry now g)
  retries : {g : Gateway} → 1 ≤ g.retrying → Step g (retry_over g)
  reads_first : {g : Gateway} (k : ℕ) (r : Read) → Step g (on_first_read k r g)
  reads : {g : Gateway} (k : ℕ) (r : Read) → Step g (on_read k r g)
  -- Only the closing of its stream cancels a write.
  writes :
      {g : Gateway} (k : ℕ) (s : Session) (r : Write)
      → find k g.sessions ≡ some s
      → 1 ≤ length s.writing
      → (r ≡ write_canceled → s.closing ≡ true)
      → Step g (on_write k r g)
  elapses : {g : Gateway} (k : ℕ) → Step g (update_session k elapse g)
  expires :
      {g : Gateway} (k : ℕ) (s : Session)
      → find k g.sessions ≡ some s
      → 1 ≤ s.due
      → Step g (on_expire k g)
  -- A request for guild members.
  sends : {g : Gateway} (k n : ℕ) → Step g (update_session k (send (request_message n)) g)
  -- The deferred restart after an event that could not be parsed.
  restarts : {g : Gateway} (k : ℕ) → Step g (restart k g)
  terminates : {g : Gateway} → Step g (terminate g)

-- The state in which `Run` starts the first connection.
abbrev pub initial : Gateway
initial = run_session (record {
  sessions = [];
  ws_session = none;
  terminating = false;
  error_started_at = 0;
  cached_gateway_url = none;
  resume_gateway_url = none;
  session_id = none;
  last_sequence = 0;
  connecting = 0;
  retrying = 0;
})

pub data Reachable : Gateway → Type 0 where
  started : Reachable initial
  further : {g h : Gateway} → Reachable g → Step g h → Reachable h
