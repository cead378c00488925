-- ===== src/Http/Drain.antt =====
-- Every request is answered, if the network answers.
use greek_bot.Prelude.{
  ℕ, ◌+◌, ◌-◌, ◌*◌, ◌≤◌, ◌≡◌, ◌≢◌, ◌⊎◌, false, Bool, List, [], ◌++◌, none, some, Option, arith,
  refl, inl, inr, sym, ap, ◌∙◌, List-cases, length,
}
use mathlib.Core.List.{append-nil}
use greek_bot.Http.Queue.{
  Http, HttpEntry, Failure, http_coro, issue_all, resume, fail_all, pop_entry, complete, finish,
  on_spawned, on_open, on_written, on_reply, response, end_of_stream, read_failed,
}
use greek_bot.Http.Steps.{Serve, Reachable, spawns, opens, writes, reads, serves, further}
use greek_bot.Http.Serving.{IsServing, under_way, Reachable-IsServing}
use greek_bot.Http.Order.{IsInOrder, answered, waiting, Reachable-IsInOrder}

-- A step after which the resumed coroutine issues no further request, and the server did not close
-- the stream instead of answering.
unfoldable pub IsCalm : {h k : Http} → Serve h k → Type 0
IsCalm (spawns le) = Unit
IsCalm (opens r next le) = next ≡ []
IsCalm (writes r next le) = next ≡ []
IsCalm (reads r next le) = (next ≡ []) × (r ≢ end_of_stream)

pub data Run : Http → Http → Type 0 where
  rests : {h : Http} → Run h h
  runs : {h k l : Http} (s : Serve h k) → IsCalm s → Run k l → Run h l

abbrev pub steps : {h k : Http} → Run h k → ℕ
steps rests = 0
steps (runs s c r) = steps r + 1

-- The most steps that are left.
abbrev pub work : Http → ℕ
work h = 4 * length h.queue - (h.opening + 2 * h.writing + 3 * h.reading)

complete-work :
    (ex : Option Failure) (keep_alive : Bool) (e : HttpEntry) (rest : List HttpEntry) (h : Http)
    → under_way h ≡ 0
    → (work (complete ex keep_alive [] e rest h) ≤ 4 * length rest)
unfolding complete pop_entry resume issue_all fail_all
complete-work ex keep_alive e rest h zero_left = ground arith

finish-work :
    (ex : Option Failure) (keep_alive : Bool) (h : Http)
    → under_way h ≡ 0
    → 1 ≤ length h.queue
    → work (finish ex keep_alive [] h) + 4 ≤ 4 * length h.queue
unfolding finish
finish-work ex keep_alive h zero_left wait = elim (List-cases h.queue) [
  | inl empty ↦ absurd (omega (arith, ap length empty))
  | inr (e, rest, q) ↦
      rw (finish, q) (omega (arith, complete-work ex keep_alive e rest h zero_left))
]

Serve-work : {h k : Http} (s : Serve h k) → IsServing h → IsCalm s → work k + 1 ≤ work h
unfolding IsServing IsCalm on_spawned on_open on_written on_reply http_coro
Serve-work (spawns {h} le) (one, live) c = ground arith
Serve-work (opens {h} none next le) (one, live) c = ground arith
Serve-work (opens {h} (some ex) next le) (one, live) c = rw c (
    omega (
      arith,
      finish-work (some ex) false (record h { opening = h.opening - 1 }) (omega arith)
          (omega arith),
    ))
Serve-work (writes {h} none next le) (one, live) c = ground arith
Serve-work (writes {h} (some ex) next le) (one, live) c = rw c (
    omega (
      arith,
      finish-work (some ex) false (record h { writing = h.writing - 1 }) (omega arith)
          (omega arith),
    ))
Serve-work (reads {h} (response keep_alive) next le) (one, live) (c, d) = rw c (
    omega (
      arith,
      finish-work none keep_alive (record h { reading = h.reading - 1 }) (omega arith)
          (omega arith),
    ))
Serve-work (reads {h} end_of_stream next le) v (c, d) = absurd (d refl)
Serve-work (reads {h} (read_failed ex) next le) (one, live) (c, d) = rw c (
    omega (
      arith,
      finish-work (some ex) false (record h { reading = h.reading - 1 }) (omega arith)
          (omega arith),
    ))

complete-issued :
    (ex : Option Failure) (keep_alive : Bool) (e : HttpEntry) (rest : List HttpEntry) (h : Http)
    → (complete ex keep_alive [] e rest h).issued ≡ h.issued
unfolding complete pop_entry resume issue_all fail_all
complete-issued ex keep_alive e rest h = ground arith

finish-issued :
    (ex : Option Failure) (keep_alive : Bool) (h : Http)
    → (finish ex keep_alive [] h).issued ≡ h.issued
unfolding finish
finish-issued ex keep_alive h = elim (List-cases h.queue) [
  | inl empty ↦ rw (finish, empty) refl
  | inr (e, rest, q) ↦ rw (finish, q) (complete-issued ex keep_alive e rest h)
]

Serve-issued : {h k : Http} (s : Serve h k) → IsCalm s → k.issued ≡ h.issued
unfolding IsCalm on_spawned on_open on_written on_reply http_coro
Serve-issued (spawns {h} le) c = ground arith
Serve-issued (opens {h} none next le) c = refl
Serve-issued (opens {h} (some ex) next le) c =
    rw c (finish-issued (some ex) false (record h { opening = h.opening - 1 }))
Serve-issued (writes {h} none next le) c = refl
Serve-issued (writes {h} (some ex) next le) c =
    rw c (finish-issued (some ex) false (record h { writing = h.writing - 1 }))
Serve-issued (reads {h} (response keep_alive) next le) (c, d) =
    rw c (finish-issued none keep_alive (record h { reading = h.reading - 1 }))
Serve-issued (reads {h} end_of_stream next le) (c, d) = absurd (d refl)
Serve-issued (reads {h} (read_failed ex) next le) (c, d) =
    rw c (finish-issued (some ex) false (record h { reading = h.reading - 1 }))

-- A state in which no step of the coroutine is left.
unfoldable pub IsStuck : Http → Type 0
IsStuck h = (k : Http) → ¬ Serve h k

stuck_lem : (h : Http) → IsServing h → IsStuck h → h.queue ≡ []
unfolding IsServing IsStuck
stuck_lem h (one, live) stuck = elim (List-cases h.queue) [
  | inl empty ↦ empty
  | inr (e, rest, q) ↦ elim (some_phase h (omega (arith, one, ap length q))) [
    | inl p ↦ absurd (stuck _ (spawns p))
    | inr (inl p) ↦ absurd (stuck _ (opens none [] p))
    | inr (inr (inl p)) ↦ absurd (stuck _ (writes none [] p))
    | inr (inr (inr p)) ↦ absurd (stuck _ (reads end_of_stream [] p))
  ]
]
  where
    some_phase :
        (h : Http)
        → under_way h ≡ 1
        → (1 ≤ h.spawned) ⊎ ((1 ≤ h.opening) ⊎ ((1 ≤ h.writing) ⊎ (1 ≤ h.reading)))
    some_phase h q = ground arith

run_bounded :
    {h k : Http} (r : Run h k)
    → Reachable h
    → (steps r + work k ≤ work h) × (k.issued ≡ h.issued) × Reachable k
run_bounded rests v = (omega arith, refl, v)
run_bounded (runs {h} {k} {l} s c r) v =
    let (le, same, w) = run_bounded r (further v (serves s)) in
    (omega (arith, le, Serve-work s (Reachable-IsServing h v) c), same ∙ Serve-issued s c, w)

-- If the coroutines that are resumed issue no further request at once and no stream ends instead of
-- an answer, the requests that wait are served in at most four steps each; and where no step is left
-- every coroutine that waited has been resumed, in order.
pub run_answers :
    (h k : Http) (r : Run h k)
    → Reachable h
    → (steps r ≤ 4 * length h.queue) × (IsStuck k → answered k.resumed ≡ h.issued)
unfolding IsInOrder
run_answers h k r v =
    let (le, same, w) = run_bounded r v in
    (
      omega (arith, le),
      λ stuck. sym (
          sym same
          ∙ Reachable-IsInOrder k w
          ∙ ap (λ q. answered k.resumed ++ waiting q) (stuck_lem k (Reachable-IsServing k w) stuck)
          ∙ append-nil (answered k.resumed)),
    )
