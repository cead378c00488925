-- ===== src/Http/Examples.antt =====
-- The request queue on concrete steps.
use greek_bot.Prelude.{◌≡◌, ◌≤◌, refl, arith, none, [], ◌∷◌, true}
use greek_bot.Http.Queue.{
  Http, HttpEntry, issue, on_spawned, on_open, on_written, on_reply, response, http_coro, finish,
  complete, pop_entry, resume, issue_all, fail_all,
}
use greek_bot.Http.Steps.{Reachable, started, further, issues, idle, spawns, opens, writes, reads}
use greek_bot.Http.Serving.{IsServing, Reachable-IsServing}
use greek_bot.Http.Order.{IsInOrder, Reachable-IsInOrder, answered}
use greek_bot.Http.Drain.{Run, rests, runs, steps, IsCalm, IsStuck, run_answers}

abbrev first : HttpEntry
first = record { request = 70; coro = 1 }

abbrev second : HttpEntry
second = record { request = 71; coro = 2 }

-- Two requests, of which the first is on its way.
abbrev two_wait : Http
two_wait = issue second (issue first idle)

two_wait-Reachable : Reachable two_wait
two_wait-Reachable = further (further started (issues first)) (issues second)

abbrev served : Http
served = on_reply (response true) [] (on_written none [] (on_open none [] (on_spawned two_wait)))

serve_first : Run two_wait served
unfolding issue on_spawned on_open on_written on_reply http_coro IsCalm
serve_first = runs (spawns (omega arith)) tt (
    runs (opens none [] (omega arith)) refl (
      runs (writes none [] (omega arith)) refl
        (runs (reads (response true) [] (omega arith)) (refl, λ p. cc) rests)))

-- The first coroutine got its response, and the second request is served now.
first_answered : served.resumed ≡ (1, none) ∷ []
unfolding issue on_spawned on_open on_written on_reply http_coro finish complete pop_entry resume
    issue_all fail_all
first_answered = refl

Reachable-IsServing_example : IsServing two_wait
Reachable-IsServing_example = Reachable-IsServing two_wait two_wait-Reachable

Reachable-IsInOrder_example : IsInOrder two_wait
Reachable-IsInOrder_example = Reachable-IsInOrder two_wait two_wait-Reachable

run_answers_example :
    (steps serve_first ≤ 8) × (IsStuck served → answered served.resumed ≡ 1 ∷ 2 ∷ [])
unfolding issue
run_answers_example = run_answers two_wait served serve_first two_wait-Reachable
