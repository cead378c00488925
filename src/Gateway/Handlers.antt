-- ===== src/Gateway/Handlers.antt =====
-- The handlers of Discord/Gateway/GatewayImpl.cpp. What the stream, the decompression and the parser
-- make of a read is its result.
use greek_bot.Prelude.{
  ℕ, ◌+◌, ◌-◌, Bool, true, false, List, [], ◌∷◌, Option, none, some, ◌==◌, ltb, if◌then◌else◌,
  contains, not, drop,
}
use greek_bot.Prelude.Table.{find, put}
use greek_bot.Gateway.State.{
  Session, Gateway, Message, identify_message, resume_message, opened, send, pop_front, heartbeat,
  wait, run_session, restart, on_close, update_session,
}

-- An event of opcode 0: what `process_event` keeps of it.
pub data Dispatch : Type 0 where
  ready : ℕ → ℕ → Dispatch
  other_event : Dispatch

pub data Payload : Type 0 where
  dispatch : ℕ → Dispatch → Payload
  heartbeat_request : Payload
  reconnect : Payload
  invalid_session : Bool → Payload
  hello : Payload
  heartbeat_ack : Payload
  unknown : Payload

-- `closed` has the close code; `cut` is an unexpected end; `broken` is a message that cannot be
-- decompressed or parsed, or any other error.
pub data Read : Type 0 where
  closed : ℕ → Read
  cut : Read
  canceled : Read
  partial : Read
  broken : Read
  received : Payload → Read

abbrev pub fatal_codes : List ℕ
fatal_codes = 4004 ∷ 4010 ∷ 4011 ∷ 4012 ∷ 4013 ∷ 4014 ∷ []

abbrev pub reset : Gateway → Gateway
reset g = record g { last_sequence = 0; session_id = none; resume_gateway_url = none }

unfoldable pub on_closed : ℕ → ℕ → Gateway → Gateway
unfolding on_close
on_closed k code g =
    if contains fatal_codes code
    then on_close k (record g { terminating = true })
    else if code == 4007
    then on_close k (reset g)
    else on_close k g

-- `identify` or `resume`.
abbrev pub greeting : Option ℕ → ℕ → Message
greeting none last_sequence = identify_message
greeting (some id) last_sequence = resume_message id last_sequence

abbrev pub process_event : ℕ → Dispatch → Gateway → Gateway
process_event seq (ready id url) g = record g {
  last_sequence = seq;
  session_id = some id;
  resume_gateway_url = some url;
}
process_event seq other_event g = record g { last_sequence = seq }

-- `OP_HEARTBEAT`: only if the pending wait can still be canceled.
abbrev pub beat_now : ℕ → Session → Session
beat_now last_sequence s = if s.timer then wait (heartbeat last_sequence s) else s

abbrev pub say_hello : Message → Session → Session
say_hello m s = send m (wait (record s { hb_ack = true }))

unfoldable pub on_payload : ℕ → Payload → Gateway → Gateway
unfolding restart update_session heartbeat send
on_payload k (dispatch seq e) g = process_event seq e g
on_payload k heartbeat_request g = update_session k (beat_now g.last_sequence) g
on_payload k (invalid_session resumable) g = restart k (if resumable then g else reset g)
on_payload k reconnect g = g
on_payload k hello g = update_session k (say_hello (greeting g.session_id g.last_sequence)) g
on_payload k heartbeat_ack g = update_session k (λ s. record s { hb_ack = true }) g
on_payload k unknown g = g

abbrev pub is_closing : ℕ → Gateway → Bool
is_closing k g = elim (find k g.sessions) [ none ↦ true | some s ↦ s.closing ]

unfoldable pub on_read : ℕ → Read → Gateway → Gateway
unfolding on_payload on_closed restart on_close
on_read k (closed code) g = on_closed k code g
on_read k cut g = on_close k g
on_read k canceled g = g
on_read k partial g = g
on_read k broken g = if is_closing k g then g else restart k g
on_read k (received p) g = if is_closing k g then g else on_payload k p g

-- The handler of the first read also saves the session.
unfoldable pub on_first_read : ℕ → Read → Gateway → Gateway
unfolding on_read
on_first_read k r g = on_read k r (record g { ws_session = some k })

-- The result of a write: it succeeded, was canceled, or failed.
pub data Write : Type 0 where
  sent : Write
  write_canceled : Write
  write_failed : Write

-- A completed write is no longer under way.
abbrev pub completed : Session → Session
completed s = record s { writing = drop 1 s.writing }

unfoldable pub on_write : ℕ → Write → Gateway → Gateway
unfolding restart update_session pop_front
on_write k write_canceled g = update_session k completed g
on_write k write_failed g =
    if is_closing k g
    then update_session k completed g
    else restart k (update_session k completed g)
on_write k sent g =
    if is_closing k g
    then update_session k completed g
    else update_session k (λ s. pop_front (completed s)) g

-- The handler of a wait that is over.
abbrev pub expired : Session → Session
expired s = record s { due = s.due - 1 }

unfoldable pub on_expire : ℕ → Gateway → Gateway
unfolding restart update_session heartbeat
on_expire k g = elim (find k g.sessions) [
  | none ↦ g
  | some s ↦
      let late = update_session k expired g in
      if s.closing
      then late
      else if not s.hb_ack
      then restart k late
      else update_session k (λ s. wait (heartbeat g.last_sequence s)) late
]

-- The wait is over before it is canceled.
abbrev pub elapse : Session → Session
elapse s = if s.timer then record s { timer = false; due = s.due + 1 } else s

-- `run_session` ends with a new session, `k`, on the url that it found or fetched.
unfoldable pub connected : ℕ → ℕ → Gateway → Gateway
connected k fetched g =
    let url : Option ℕ = elim g.resume_gateway_url [
      | some u ↦ g.cached_gateway_url
      | none ↦ elim g.cached_gateway_url [ some u ↦ some u | none ↦ some fetched ]
    ] in
    record g {
      sessions = put k opened g.sessions;
      cached_gateway_url = url;
      error_started_at = 0;
      connecting = g.connecting - 1;
    }

-- `run_session` fails, and `retry` clears the url after more than a minute of errors. Times are in
-- seconds; 0 is no time.
unfoldable pub retry : ℕ → Gateway → Gateway
retry now g =
    let failed = record g { connecting = g.connecting - 1; retrying = g.retrying + 1 } in
    let cleared : Gateway = elim g.resume_gateway_url [
      | none ↦ record failed { cached_gateway_url = none; error_started_at = now }
      | some u ↦ record failed { resume_gateway_url = none; error_started_at = now }
    ] in
    if g.error_started_at == 0
    then record failed { error_started_at = now }
    else if ltb 60 (now - g.error_started_at)
    then cleared
    else failed

-- The end of the 10 seconds that `retry` waits.
unfoldable pub retry_over : Gateway → Gateway
unfolding run_session
retry_over g =
    let over = record g { retrying = g.retrying - 1 } in
    if g.terminating then over else run_session over

-- The handler of SIGINT, SIGTSTP and SIGTERM.
unfoldable pub terminate : Gateway → Gateway
unfolding restart
terminate g =
    let ending = record g { terminating = true } in
    elim g.ws_session [ none ↦ ending | some k ↦ restart k ending ]

-- `run_context`, after an exception escaped from a handler.
unfoldable pub on_escape : Gateway → Gateway
unfolding restart run_session
on_escape g = elim g.ws_session [ none ↦ run_session g | some k ↦ restart k g ]
