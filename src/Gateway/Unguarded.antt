-- ===== src/Gateway/Unguarded.antt =====
-- Where the gateway keeps no check: a signal and an exception while a connection is being set up.
use greek_bot.Prelude.{ℕ, ◌≤◌, ◌≡◌, ◌≢◌, true, none, arith, refl, ◌∙◌}
use greek_bot.Prelude.Table.{find, put, find-put}
use greek_bot.Gateway.State.{Gateway, run_session, opened}
use greek_bot.Gateway.Handlers.{connected, terminate, on_escape}
use greek_bot.Gateway.Steps.{Step, connects, terminates, Reachable}
use greek_bot.Gateway.Single.{IsSingle, live, live-put_new}
use greek_bot.Gateway.Invariant.{Reachable-IsSingle}

-- While a connection is being set up no session is open.
none_open : (g : Gateway) → Reachable g → 1 ≤ g.connecting → live g.sessions ≡ 0
unfolding IsSingle
none_open g r le = let (few, one) = Reachable-IsSingle g r in omega (arith, few)

-- A signal while a connection is being set up and no session is to be closed: the attempt goes on, and
-- where it ends the gateway, although it was told to terminate, has one session, which is not closing.
pub terminate_unheard :
    (g : Gateway) (k fetched : ℕ)
    → Reachable g
    → g.ws_session ≡ none
    → 1 ≤ g.connecting
    → find k g.sessions ≡ none
    → Step g (terminate g)
      × Step (terminate g) (connected k fetched (terminate g))
      × ((connected k fetched (terminate g)).terminating ≡ true)
      × (live (connected k fetched (terminate g)).sessions ≡ 1)
unfolding terminate connected
terminate_unheard g k fetched r unset le fresh = (
  terminates,
  connects k fetched (rw unset le) (rw unset fresh),
  rw unset refl,
  rw unset (omega (arith, live-put_new k opened g.sessions fresh, none_open g r le)),
)

-- An exception that escapes from a handler while a connection is being set up and no session is saved
-- starts a further attempt: where both end the gateway has two sessions that are not closing.
pub escape_doubles :
    (g : Gateway) (k j fetched fetched' : ℕ)
    → Reachable g
    → g.ws_session ≡ none
    → 1 ≤ g.connecting
    → find k g.sessions ≡ none
    → find j g.sessions ≡ none
    → k ≢ j
    → let first = connected k fetched (on_escape g) in
      let second = connected j fetched' first in
      Step (on_escape g) first × Step first second × (live second.sessions ≡ 2)
unfolding on_escape connected run_session
escape_doubles g k j fetched fetched' r unset le fresh other apart = (
  connects k fetched (rw unset (omega arith)) (rw unset fresh),
  connects j fetched' (rw unset (omega arith)) (rw unset later),
  rw unset (
      omega (
        arith,
        live-put_new j opened (put k opened g.sessions) later,
        live-put_new k opened g.sessions fresh,
        none_open g r le,
      )),
)
  where
    later : find j (put k opened g.sessions) ≡ none
    later = find-put j k opened g.sessions ∙ ground (arith, apart, other)
