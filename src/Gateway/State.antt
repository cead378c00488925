-- ===== src/Gateway/State.antt =====
-- The state of `cGateway::implementation` (Discord/Gateway/GatewayImpl.h) and of its WebSocket
-- sessions. Session ids and urls are opaque numbers. The weak pointer to the current session is its
-- key; a session that is not closing is kept alive by its pending read.
use greek_bot.Prelude.{
  ℕ, ◌+◌, Bool, true, false, List, [], ◌∷◌, ◌++◌, Option, none, some, ◌==◌, if◌then◌else◌, length,
  drop, is_empty, take,
}
use greek_bot.Prelude.Table.{find, put}

pub data Message : Type 0 where
  heartbeat_message : Option ℕ → Message
  identify_message : Message
  resume_message : ℕ → ℕ → Message
  request_message : ℕ → Message

-- `websocket_session`. `timer`: a wait on `hb_timer` is pending; `due`: waits that are over, whose
-- handlers have not run yet; `writing`: the messages whose writes are under way on the
-- stream.
pub record Session : Type 0 where
  pub queue : List Message
  pub hb_ack : Bool
  pub closing : Bool
  pub timer : Bool
  pub due : ℕ
  pub writing : List Message

-- `connecting` and `retrying` count the calls of `run_session` and `retry` that are under way.
pub record Gateway : Type 0 where
  pub sessions : List (ℕ × Session)
  pub ws_session : Option ℕ
  pub terminating : Bool
  pub error_started_at : ℕ
  pub cached_gateway_url : Option ℕ
  pub resume_gateway_url : Option ℕ
  pub session_id : Option ℕ
  pub last_sequence : ℕ
  pub connecting : ℕ
  pub retrying : ℕ

-- A new session.
abbrev pub opened : Session
opened = record {
  queue = [];
  hb_ack = false;
  closing = false;
  timer = false;
  due = 0;
  writing = [];
}

-- `send`: a write is started if the queue was empty.
unfoldable pub send : Message → Session → Session
send m s =
    let queue = s.queue ++ (m ∷ []) in
    record s {
      queue = queue;
      writing = if length queue == 1 then s.writing ++ take 1 queue else s.writing;
    }

-- The body of `on_write` after a successful write.
unfoldable pub pop_front : Session → Session
pop_front s =
    let queue = drop 1 s.queue in
    record s {
      queue = queue;
      writing = if is_empty queue then s.writing else s.writing ++ take 1 queue;
    }

-- `heartbeat`.
unfoldable pub heartbeat : ℕ → Session → Session
unfolding send
heartbeat last_sequence s =
    send (heartbeat_message (if last_sequence == 0 then none else some last_sequence))
      (record s { hb_ack = false })

-- `hb_timer.expires_after` and `async_wait`.
abbrev pub wait : Session → Session
wait s = record s { timer = true }

unfoldable pub run_session : Gateway → Gateway
run_session g = record g { connecting = g.connecting + 1 }

abbrev is_current : ℕ → Option ℕ → Bool
is_current k none = false
is_current k (some j) = j == k

-- `restart` and `on_close`, which differ in who closes the stream.
unfoldable pub close_session : ℕ → Session → Gateway → Gateway
unfolding run_session
close_session k s g =
    let sessions = put k (record s { closing = true; timer = false }) g.sessions in
    let current = if is_current k g.ws_session then none else g.ws_session in
    let closed = record g { sessions = sessions; ws_session = current } in
    if s.closing then g else if g.terminating then closed else run_session closed

unfoldable pub restart : ℕ → Gateway → Gateway
unfolding close_session
restart k g = elim (find k g.sessions) [ none ↦ g | some s ↦ close_session k s g ]

unfoldable pub on_close : ℕ → Gateway → Gateway
unfolding close_session
on_close k g = elim (find k g.sessions) [ none ↦ g | some s ↦ close_session k s g ]

-- A change of one session.
unfoldable pub update_session : ℕ → (Session → Session) → Gateway → Gateway
update_session k f g = elim (find k g.sessions) [
  | none ↦ g
  | some s ↦ record g { sessions = put k (f s) g.sessions }
]
