-- ===== src/Http/Queue.antt =====
-- Discord/Gateway/GatewayHttp.cpp: `http_coro` and `http_start`, and how a request gets into the
-- queue. All of it runs on one strand. That `co_spawn` runs out of memory is left aside.
use greek_bot.Prelude.{
  ℕ, ◌+◌, ◌-◌, Bool, true, false, List, [], ◌∷◌, ◌++◌, Option, none, some, if◌then◌else◌, map,
  is_empty, not, ◌&&◌, ◌==◌, length,
}

-- The errors of the network, and `xGatewaySessionResetError`.
pub data Failure : Type 0 where
  network_failure : ℕ → Failure
  session_reset : Failure

-- `http_entry`: the request, which is opaque here, and the coroutine that waits for the response.
pub record HttpEntry : Type 0 where
  pub request : ℕ
  pub coro : ℕ

-- What `http_coro` and `http_start` use of the gateway. `stream`: there is one; `timer`: a wait on
-- `m_http_timer` is pending; `due`: waits that are over, whose handlers have not run yet. The calls of
-- `http_coro` are counted by where they stand. `issued` and `resumed` are the history: the
-- coroutines that were suspended, and those that were resumed, with the exception that they found.
pub record Http : Type 0 where
  pub queue : List HttpEntry
  pub stream : Bool
  pub timer : Bool
  pub due : ℕ
  pub terminating : Bool
  pub failure : Option Failure
  pub spawned : ℕ
  pub opening : ℕ
  pub writing : ℕ
  pub reading : ℕ
  pub issued : List ℕ
  pub resumed : List (ℕ × Option Failure)

-- `http_coro` up to where it suspends first: it opens a stream, or writes to the one there is.
unfoldable pub http_coro : Http → Http
http_coro h =
    if h.stream
    then record h { timer = false; writing = h.writing + 1 }
    else record h { opening = h.opening + 1 }

-- `http_start`, up to the handler.
abbrev pub http_start : Http → Http
http_start h = record h { spawned = h.spawned + 1 }

-- `DiscordRequestNoRetry` from where it is on the strand up to where it suspends. While the session
-- terminates it throws instead.
unfoldable pub issue : HttpEntry → Http → Http
issue e h =
    let queue = h.queue ++ (e ∷ []) in
    let saved = record h { queue = queue; issued = h.issued ++ (e.coro ∷ []) } in
    if h.terminating then h else if length queue == 1 then http_start saved else saved

unfoldable pub issue_all : List HttpEntry → Http → Http
issue_all [] h = h
issue_all (e ∷ es) h = issue_all es (issue e h)

-- `coro.resume()`: the coroutine reads the exception, and goes on to issue further requests, if it
-- does so at once.
unfoldable pub resume : HttpEntry → List HttpEntry → Http → Http
unfolding issue_all
resume e next h = issue_all next (record h { resumed = h.resumed ++ ((e.coro, h.failure) ∷ []) })

-- The exception is forced to all that wait. It happens when the session terminates, and what they
-- issue then is refused.
unfoldable pub fail_all : Failure → Http → Http
fail_all ex h = record h {
  failure = some ex;
  queue = [];
  resumed = h.resumed ++ map (λ (e : HttpEntry). (e.coro, some ex)) h.queue;
}

-- The handler of `http_start`: the entry that was served is taken from the queue, and the stream kept
-- for a minute if the response lets it.
abbrev is_kept : Bool → Option Failure → Bool → Bool
is_kept terminating ex keep_alive =
    not terminating && elim ex [ none ↦ keep_alive | some e ↦ false ]

unfoldable pub pop_entry : Option Failure → Bool → List HttpEntry → Http → Http
pop_entry ex keep_alive rest h =
    let kept = is_kept h.terminating ex keep_alive in
    record h {
      queue = rest;
      failure = ex;
      timer = if kept then true else h.timer;
      stream = if kept then h.stream else false;
    }

unfoldable pub complete :
    Option Failure → Bool → List HttpEntry → HttpEntry → List HttpEntry → Http → Http
unfolding resume fail_all pop_entry
complete ex keep_alive next e rest h =
    let popped = pop_entry ex keep_alive rest h in
    if h.terminating
    then fail_all session_reset (resume e next popped)
    else if is_empty rest
    then resume e next popped
    else resume e next (http_start popped)

-- There is a request in the queue whenever the handler runs; it would take one from an empty queue.
unfoldable pub finish : Option Failure → Bool → List HttpEntry → Http → Http
unfolding complete
finish ex keep_alive next h = elim h.queue [
  | [] ↦ h
  | e ∷ rest ↦ complete ex keep_alive next e rest h
]

-- The rest of `http_coro`. `none` is success.
unfoldable pub on_spawned : Http → Http
unfolding http_coro
on_spawned h = http_coro (record h { spawned = h.spawned - 1 })

unfoldable pub on_open : Option Failure → List HttpEntry → Http → Http
unfolding finish
on_open none next h = record h {
  opening = h.opening - 1;
  stream = true;
  timer = false;
  writing = h.writing + 1;
}
on_open (some ex) next h = finish (some ex) false next (record h { opening = h.opening - 1 })

unfoldable pub on_written : Option Failure → List HttpEntry → Http → Http
unfolding finish
on_written none next h = record h { writing = h.writing - 1; reading = h.reading + 1 }
on_written (some ex) next h = finish (some ex) false next (record h { writing = h.writing - 1 })

-- What a read gives: a response, with or without Keep-Alive, the end of the stream, another error.
pub data Reply : Type 0 where
  response : Bool → Reply
  end_of_stream : Reply
  read_failed : Failure → Reply

unfoldable pub on_reply : Reply → List HttpEntry → Http → Http
unfolding finish http_coro
on_reply (response keep_alive) next h =
    finish none keep_alive next (record h { reading = h.reading - 1 })
on_reply end_of_stream next h = http_coro (record h { reading = h.reading - 1; stream = false })
on_reply (read_failed ex) next h =
    finish (some ex) false next (record h { reading = h.reading - 1 })

-- The wait on the timer gets over; then its handler runs, and destroys the stream if it is idle.
unfoldable pub timer_over : Http → Http
timer_over h = if h.timer then record h { timer = false; due = h.due + 1 } else h

unfoldable pub on_timer : Http → Http
on_timer h =
    let over = record h { due = h.due - 1 } in
    if is_empty h.queue && h.stream then record over { stream = false } else over

-- What ends the session posts this to the strand.
unfoldable pub http_terminate : Http → Http
http_terminate h = record h { terminating = true; timer = false }
