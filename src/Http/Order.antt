-- ===== src/Http/Order.antt =====
-- Each coroutine that waits for a response is resumed once, in the order of the requests.
use greek_bot.Prelude.{
  ℕ, ◌-◌, ◌≡◌, false, Bool, List, [], ◌∷◌, ◌++◌, none, some, Option, refl, inl, inr, is_empty, ◌==◌,
  sym, ap, ◌∙◌, map, List-cases, length, if-holds, ◌&&◌, if-holds, ◌&&◌,
}
use mathlib.Core.List.{append_assoc, append-nil, map-append}
use greek_bot.Http.Queue.{
  Http, HttpEntry, Failure, http_coro, http_start, issue, issue_all, resume, fail_all, pop_entry,
  complete, finish, on_spawned, on_open, on_written, on_reply, timer_over, on_timer, http_terminate,
  response, end_of_stream, read_failed, session_reset,
}
use greek_bot.Http.Steps.{
  Serve, Step, Reachable, spawns, opens, writes, reads, serves, issues, elapses, expires,
  terminates, started, further,
}

abbrev pub waiting : List HttpEntry → List ℕ
waiting q = map (λ e. e.coro) q

abbrev pub answered : List (ℕ × Option Failure) → List ℕ
answered r = map (λ a. a.0) r

-- The coroutines that were suspended are those that were resumed and those that wait, in this order.
unfoldable pub IsInOrder : Http → Type 0
IsInOrder h = h.issued ≡ answered h.resumed ++ waiting h.queue

-- One more at the end of the queue.
pushed :
    (e : HttpEntry) (is : List ℕ) (r : List (ℕ × Option Failure)) (q : List HttpEntry)
    → is ≡ answered r ++ waiting q
    → is ++ (e.coro ∷ []) ≡ answered r ++ waiting (q ++ (e ∷ []))
pushed e is r q v =
    ap (λ l. l ++ (e.coro ∷ [])) v
    ∙ append_assoc (answered r) (waiting q) (e.coro ∷ [])
    ∙ ap (λ l. answered r ++ l) (sym (map-append (λ (e : HttpEntry). e.coro) q (e ∷ [])))

issue-IsInOrder : (e : HttpEntry) (h : Http) → IsInOrder h → IsInOrder (issue e h)
unfolding IsInOrder issue
issue-IsInOrder e h v =
    if-holds IsInOrder h.terminating _ _ (λ ending. v)
      (λ going.
        if-holds IsInOrder (length (h.queue ++ (e ∷ [])) == 1) _ _ (λ first. more) (λ later. more))
  where
    more : h.issued ++ (e.coro ∷ []) ≡ answered h.resumed ++ waiting (h.queue ++ (e ∷ []))
    more = pushed e h.issued h.resumed h.queue v

issue_all-IsInOrder : (es : List HttpEntry) (h : Http) → IsInOrder h → IsInOrder (issue_all es h)
unfolding issue_all
issue_all-IsInOrder [] h v = v
issue_all-IsInOrder (e ∷ es) h v = issue_all-IsInOrder es (issue e h) (issue-IsInOrder e h v)

-- The first of the queue is resumed next.
resumed_first :
    (e : HttpEntry) (f : Option Failure) (is : List ℕ) (r : List (ℕ × Option Failure))
    (q : List HttpEntry)
    → is ≡ answered r ++ waiting (e ∷ q)
    → is ≡ answered (r ++ ((e.coro, f) ∷ [])) ++ waiting q
resumed_first e f is r q v =
    v
    ∙ sym (append_assoc (answered r) (e.coro ∷ []) (waiting q))
    ∙ ap (λ l. l ++ waiting q)
        (sym (map-append (λ (a : ℕ × Option Failure). a.0) r ((e.coro, f) ∷ [])))

resume-IsInOrder :
    (e : HttpEntry) (next : List HttpEntry) (h : Http)
    → h.issued ≡ answered h.resumed ++ waiting (e ∷ h.queue)
    → IsInOrder (resume e next h)
unfolding IsInOrder resume
resume-IsInOrder e next h v =
    issue_all-IsInOrder next (record h { resumed = h.resumed ++ ((e.coro, h.failure) ∷ []) })
      (resumed_first e h.failure h.issued h.resumed h.queue v)

fail_all-IsInOrder : (ex : Failure) (h : Http) → IsInOrder h → IsInOrder (fail_all ex h)
unfolding IsInOrder fail_all
fail_all-IsInOrder ex h v =
    v
    ∙ sym (
        append-nil _
        ∙ map-append (λ (a : ℕ × Option Failure). a.0) h.resumed _
        ∙ ap (λ l. answered h.resumed ++ l) (forced h.queue))
  where
    forced :
        (q : List HttpEntry) → answered (map (λ (e : HttpEntry). (e.coro, some ex)) q) ≡ waiting q
    forced [] = refl
    forced (e ∷ q) = ap (◌∷◌ e.coro) (forced q)

complete-IsInOrder :
    (ex : Option Failure) (keep_alive : Bool) (next : List HttpEntry) (e : HttpEntry)
    (rest : List HttpEntry) (h : Http)
    → h.issued ≡ answered h.resumed ++ waiting (e ∷ rest)
    → IsInOrder (complete ex keep_alive next e rest h)
unfolding complete pop_entry
complete-IsInOrder ex keep_alive next e rest h v =
    if-holds IsInOrder h.terminating _ _
      (λ ending.
        fail_all-IsInOrder session_reset (resume e next popped) (resume-IsInOrder e next popped v))
      (λ going.
        if-holds IsInOrder (is_empty rest) _ _ (λ last. resume-IsInOrder e next popped v)
          (λ more. resume-IsInOrder e next (http_start popped) v))
  where
    popped : Http
    popped = pop_entry ex keep_alive rest h

finish-IsInOrder :
    (ex : Option Failure) (keep_alive : Bool) (next : List HttpEntry) (h : Http)
    → IsInOrder h
    → IsInOrder (finish ex keep_alive next h)
unfolding finish IsInOrder
finish-IsInOrder ex keep_alive next h v = elim (List-cases h.queue) [
  | inl empty ↦ rw (finish, empty) v
  | inr (e, rest, q) ↦
      rw (finish, q)
        (complete-IsInOrder ex keep_alive next e rest h
          (v ∙ ap (λ l. answered h.resumed ++ waiting l) q))
]

Serve-IsInOrder : {h k : Http} → Serve h k → IsInOrder h → IsInOrder k
unfolding IsInOrder on_spawned on_open on_written on_reply http_coro
Serve-IsInOrder (spawns {h} le) v = if-holds IsInOrder h.stream _ _ (λ up. v) (λ down. v)
Serve-IsInOrder (opens {h} none next le) v = v
Serve-IsInOrder (opens {h} (some ex) next le) v =
    finish-IsInOrder (some ex) false next (record h { opening = h.opening - 1 }) v
Serve-IsInOrder (writes {h} none next le) v = v
Serve-IsInOrder (writes {h} (some ex) next le) v =
    finish-IsInOrder (some ex) false next (record h { writing = h.writing - 1 }) v
Serve-IsInOrder (reads {h} (response keep_alive) next le) v =
    finish-IsInOrder none keep_alive next (record h { reading = h.reading - 1 }) v
Serve-IsInOrder (reads {h} end_of_stream next le) v = v
Serve-IsInOrder (reads {h} (read_failed ex) next le) v =
    finish-IsInOrder (some ex) false next (record h { reading = h.reading - 1 }) v

Step-IsInOrder : {h k : Http} → Step h k → IsInOrder h → IsInOrder k
unfolding IsInOrder on_timer timer_over http_terminate
Step-IsInOrder (serves s) v = Serve-IsInOrder s v
Step-IsInOrder (issues {h} e) v = issue-IsInOrder e h v
Step-IsInOrder (elapses {h}) v = if-holds IsInOrder h.timer _ _ (λ p. v) (λ p. v)
Step-IsInOrder (expires {h} le) v =
    if-holds IsInOrder (is_empty h.queue && h.stream) _ _ (λ p. v) (λ p. v)
Step-IsInOrder (terminates {h}) v = v

-- However the steps interleave, the coroutines that were resumed and then those that still wait are
-- those that were suspended, each as often and in the same order.
pub Reachable-IsInOrder : (h : Http) → Reachable h → IsInOrder h
unfolding IsInOrder
Reachable-IsInOrder h started = refl
Reachable-IsInOrder k (further {h} r s) = Step-IsInOrder s (Reachable-IsInOrder h r)
