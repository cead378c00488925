-- ===== src/Gateway/Examples.antt =====
-- The gateway on concrete steps.
use greek_bot.Prelude.{◌≡◌, refl, arith, some, [], ◌∷◌, true}
use greek_bot.Prelude.Table.{find, put}
use greek_bot.Gateway.State.{Gateway, opened, run_session, identify_message}
use greek_bot.Gateway.Handlers.{received, hello, connected, on_first_read, terminate, on_escape}
use greek_bot.Gateway.Steps.{Step, Reachable, started, further, initial, connects, reads_first}
use greek_bot.Gateway.Single.{IsSingle, live}
use greek_bot.Gateway.Invariant.{Reachable-IsSingle}
use greek_bot.Gateway.Unguarded.{terminate_unheard, escape_doubles}
use greek_bot.Gateway.Orderly.{AllOrderly}
use greek_bot.Gateway.Queue.{Reachable-AllOrderly}

-- The first connection, and the greeting on it.
abbrev greeted : Gateway
greeted = on_first_read 5 (received hello) (connected 5 70 initial)

identified :
    find 5 greeted.sessions
    ≡ some (record opened {
      queue = identify_message ∷ [];
      hb_ack = true;
      timer = true;
      writing = identify_message ∷ [];
    })
unfolding on_first_read connected run_session find put
identified = refl

greeted-Reachable : Reachable greeted
unfolding run_session find
greeted-Reachable =
    further (further started (connects 5 70 (omega arith) refl)) (reads_first 5 (received hello))

Reachable-IsSingle_example : IsSingle greeted
Reachable-IsSingle_example = Reachable-IsSingle greeted greeted-Reachable

Reachable-AllOrderly_example : AllOrderly greeted
Reachable-AllOrderly_example = Reachable-AllOrderly greeted greeted-Reachable

terminate_unheard_example :
    Step initial (terminate initial)
    × Step (terminate initial) (connected 5 70 (terminate initial))
    × ((connected 5 70 (terminate initial)).terminating ≡ true)
    × (live (connected 5 70 (terminate initial)).sessions ≡ 1)
unfolding run_session find
terminate_unheard_example = terminate_unheard initial 5 70 started refl (omega arith) refl

escape_doubles_example :
    Step (on_escape initial) (connected 5 70 (on_escape initial))
    × Step
        (connected 5 70 (on_escape initial))
        (connected 6 70 (connected 5 70 (on_escape initial)))
    × (live (connected 6 70 (connected 5 70 (on_escape initial))).sessions ≡ 2)
unfolding run_session find
escape_doubles_example =
    escape_doubles initial 5 6 70 70 started refl (omega arith) refl refl
      (λ p. absurd (omega arith))
