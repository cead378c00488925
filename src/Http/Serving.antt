-- ===== src/Http/Serving.antt =====
-- One request is served at a time, over a stream that stays open.
use greek_bot.Prelude.{
  if-holds, ℕ, ◌+◌, ◌≤◌, ◌≡◌, true, List, [], ◌∷◌, min, length, arith, length-append, refl, ap, ◌∙◌,
  Option, ◌++◌, Bool, inl, inr, List-cases, subst, sym, some, false, is_empty, ◌-◌, none,
}
use greek_bot.Http.Queue.{
  response, read_failed, end_of_stream, Http, HttpEntry, issue, issue_all, finish, resume, Failure,
  complete, on_spawned, on_timer, pop_entry, on_open, timer_over, on_written, http_terminate,
  fail_all, http_start, on_reply, http_coro, session_reset,
}
use greek_bot.Http.Steps.{
  Serve, Step, Reachable, spawns, opens, writes, reads, serves, issues, elapses, expires,
  terminates, started, further,
}

-- The calls of `http_coro` that are under way.
abbrev pub under_way : Http → ℕ
under_way h = h.spawned + h.opening + h.writing + h.reading

-- A call is under way exactly if a request waits, never two, and one that writes or reads has its
-- stream.
unfoldable pub IsServing : Http → Type 0
IsServing h = (under_way h ≡ min 1 (length h.queue)) × (1 ≤ h.writing + h.reading → h.stream ≡ true)

issue-IsServing : (e : HttpEntry) (h : Http) → IsServing h → IsServing (issue e h)
unfolding IsServing issue
issue-IsServing e h (one, live) = ground (arith, length-append h.queue (e ∷ []))

issue_all-IsServing : (es : List HttpEntry) (h : Http) → IsServing h → IsServing (issue_all es h)
unfolding issue_all
issue_all-IsServing [] h v = v
issue_all-IsServing (e ∷ es) h v = issue_all-IsServing es (issue e h) (issue-IsServing e h v)

-- Issuing is refused while the session terminates.
issue_all-terminating : (es : List HttpEntry) (h : Http) → h.terminating ≡ true → issue_all es h ≡ h
unfolding issue_all issue
issue_all-terminating [] h t = refl
issue_all-terminating (e ∷ es) h t = ap (issue_all es) (refused h t) ∙ issue_all-terminating es h t
  where
    refused : (h : Http) → h.terminating ≡ true → issue e h ≡ h
    refused h t = rw (issue, t) refl

-- What a completed call leaves behind is served again.
resume-IsServing :
    (e : HttpEntry) (next : List HttpEntry) (h : Http) → IsServing h → IsServing (resume e next h)
unfolding IsServing resume
resume-IsServing e next h v =
    issue_all-IsServing next (record h { resumed = h.resumed ++ ((e.coro, h.failure) ∷ []) }) v

resume-terminating :
    (e : HttpEntry) (next : List HttpEntry) (h : Http)
    → h.terminating ≡ true
    → resume e next h ≡ record h { resumed = h.resumed ++ ((e.coro, h.failure) ∷ []) }
unfolding resume
resume-terminating e next h t =
    issue_all-terminating next (record h { resumed = h.resumed ++ ((e.coro, h.failure) ∷ []) }) t

complete-IsServing :
    (ex : Option Failure) (keep_alive : Bool) (next : List HttpEntry) (e : HttpEntry)
    (rest : List HttpEntry) (h : Http)
    → under_way h ≡ 0
    → IsServing (complete ex keep_alive next e rest h)
unfolding IsServing complete pop_entry fail_all
complete-IsServing ex keep_alive next e rest h zero_left =
    if-holds IsServing h.terminating _ _
      (λ ending.
        subst (λ k. IsServing (fail_all session_reset k))
          (sym (resume-terminating e next popped ending)) (ground arith))
      (λ going.
        if-holds IsServing (is_empty rest) _ _
          (λ last. resume-IsServing e next popped (ground arith))
          (λ more. resume-IsServing e next (http_start popped) (ground arith)))
  where
    popped : Http
    popped = pop_entry ex keep_alive rest h

finish-IsServing :
    (ex : Option Failure) (keep_alive : Bool) (next : List HttpEntry) (h : Http)
    → under_way h ≡ 0
    → 1 ≤ length h.queue
    → IsServing (finish ex keep_alive next h)
unfolding finish
finish-IsServing ex keep_alive next h zero_left wait = elim (List-cases h.queue) [
  | inl empty ↦ absurd (omega (arith, ap length empty))
  | inr (e, rest, q) ↦ rw (finish, q) (complete-IsServing ex keep_alive next e rest h zero_left)
]

Serve-IsServing : {h k : Http} → Serve h k → IsServing h → IsServing k
unfolding IsServing on_spawned on_open on_written on_reply http_coro
Serve-IsServing (spawns {h} le) v = ground arith
Serve-IsServing (opens {h} none next le) v = ground arith
Serve-IsServing (opens {h} (some ex) next le) (one, live) =
    finish-IsServing (some ex) false next (record h { opening = h.opening - 1 }) (omega arith)
      (omega arith)
Serve-IsServing (writes {h} none next le) v = ground arith
Serve-IsServing (writes {h} (some ex) next le) (one, live) =
    finish-IsServing (some ex) false next (record h { writing = h.writing - 1 }) (omega arith)
      (omega arith)
Serve-IsServing (reads {h} (response keep_alive) next le) (one, live) =
    finish-IsServing none keep_alive next (record h { reading = h.reading - 1 }) (omega arith)
      (omega arith)
Serve-IsServing (reads {h} end_of_stream next le) v = ground arith
Serve-IsServing (reads {h} (read_failed ex) next le) (one, live) =
    finish-IsServing (some ex) false next (record h { reading = h.reading - 1 }) (omega arith)
      (omega arith)

Step-IsServing : {h k : Http} → Step h k → IsServing h → IsServing k
unfolding IsServing on_timer timer_over http_terminate
Step-IsServing (serves s) v = Serve-IsServing s v
Step-IsServing (issues {h} e) v = issue-IsServing e h v
Step-IsServing (elapses {h}) v = ground arith
Step-IsServing (expires {h} le) v = ground arith
Step-IsServing (terminates {h}) v = v

-- However the steps interleave: exactly one call of http_coro is under way while requests wait and
-- none otherwise, and one that writes or reads has an open stream.
pub Reachable-IsServing : (h : Http) → Reachable h → IsServing h
unfolding IsServing
Reachable-IsServing h started = ground arith
Reachable-IsServing k (further {h} r s) = Step-IsServing s (Reachable-IsServing h r)
