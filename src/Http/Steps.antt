-- ===== src/Http/Steps.antt =====
-- The steps of the request queue, in the order that the network and the callers choose.
use greek_bot.Prelude.{◌≤◌, none, [], Option, List, false}
use greek_bot.Http.Queue.{
  Http, HttpEntry, Failure, Reply, issue, on_spawned, on_open, on_written, on_reply, timer_over,
  on_timer, http_terminate,
}

-- The steps of the coroutine that serves the queue.
pub data Serve : Http → Http → Type 0 where
  spawns : {h : Http} → 1 ≤ h.spawned → Serve h (on_spawned h)
  opens :
      {h : Http} (r : Option Failure) (next : List HttpEntry)
      → 1 ≤ h.opening
      → Serve h (on_open r next h)
  writes :
      {h : Http} (r : Option Failure) (next : List HttpEntry)
      → 1 ≤ h.writing
      → Serve h (on_written r next h)
  reads :
      {h : Http} (r : Reply) (next : List HttpEntry) → 1 ≤ h.reading → Serve h (on_reply r next h)

pub data Step : Http → Http → Type 0 where
  serves : {h k : Http} → Serve h k → Step h k
  issues : {h : Http} (e : HttpEntry) → Step h (issue e h)
  elapses : {h : Http} → Step h (timer_over h)
  expires : {h : Http} → 1 ≤ h.due → Step h (on_timer h)
  terminates : {h : Http} → Step h (http_terminate h)

abbrev pub idle : Http
idle = record {
  queue = [];
  stream = false;
  timer = false;
  due = 0;
  terminating = false;
  failure = none;
  spawned = 0;
  opening = 0;
  writing = 0;
  reading = 0;
  issued = [];
  resumed = [];
}

pub data Reachable : Http → Type 0 where
  started : Reachable idle
  further : {h k : Http} → Reachable h → Step h k → Reachable k
