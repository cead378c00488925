-- ===== src/Gateway/Invariant.antt =====
-- Every handler keeps one session or attempt.
use greek_bot.Prelude.{
  ℕ, ◌+◌, ◌-◌, ◌≤◌, ◌≡◌, Bool, true, false, Option, none, some, ◌==◌, if◌then◌else◌, arith, refl,
  Option-cases, Bool-cases, inl, inr, contains, not, ltb,
}
use greek_bot.Prelude.Table.{find}
use greek_bot.Gateway.State.{
  Session, Gateway, run_session, update_session, heartbeat, send, pop_front, opened,
  request_message,
}
use greek_bot.Gateway.Handlers.{
  Read, Write, Payload, dispatch, ready, other_event, heartbeat_request, reconnect, invalid_session,
  hello, heartbeat_ack, unknown, closed, cut, canceled, partial, broken, received, sent,
  write_canceled, write_failed, on_read, on_first_read, on_payload, on_closed, on_write, on_expire,
  elapse, connected, retry, retry_over, terminate, reset, expired, fatal_codes, completed,
  is_closing,
}
use greek_bot.Gateway.Steps.{
  Step, connects, fails, retries, reads_first, reads, writes, elapses, expires, sends, restarts,
  terminates, Reachable, started, further,
}
use greek_bot.Gateway.Single.{
  IsSingle, same-IsSingle, ending-IsSingle, restart-IsSingle, on_close-IsSingle,
  update_session-IsSingle, live, live-put_new,
}

elapse_keeps : (s : Session) → (elapse s).closing ≡ s.closing
elapse_keeps s = elim (Bool-cases s.timer) [
  | inl waiting ↦ rw waiting refl
  | inr idle ↦ rw idle refl
]

either : (b : Bool) (g h : Gateway) → IsSingle g → IsSingle h → IsSingle (if b then g else h)
either true g h v w = v
either false g h v w = w

beat_keeps :
    (n : ℕ) (s : Session)
    → (if s.timer then record (heartbeat n s) { timer = true } else s).closing ≡ s.closing
unfolding heartbeat send
beat_keeps n s = elim (Bool-cases s.timer) [
  | inl waiting ↦ rw waiting refl
  | inr idle ↦ rw idle refl
]

on_payload-IsSingle : (k : ℕ) (p : Payload) (g : Gateway) → IsSingle g → IsSingle (on_payload k p g)
unfolding on_payload send heartbeat
on_payload-IsSingle k (dispatch seq (ready id url)) g v = same-IsSingle g _ refl refl v
on_payload-IsSingle k (dispatch seq other_event) g v = same-IsSingle g _ refl refl v
on_payload-IsSingle k heartbeat_request g v =
    update_session-IsSingle k _ g (beat_keeps g.last_sequence) v
on_payload-IsSingle k (invalid_session true) g v = restart-IsSingle k g v
on_payload-IsSingle k (invalid_session false) g v =
    restart-IsSingle k (reset g) (same-IsSingle g (reset g) refl refl v)
on_payload-IsSingle k reconnect g v = v
on_payload-IsSingle k hello g v = update_session-IsSingle k _ g (λ s. refl) v
on_payload-IsSingle k heartbeat_ack g v = update_session-IsSingle k _ g (λ s. refl) v
on_payload-IsSingle k unknown g v = v

on_closed-IsSingle : (k code : ℕ) (g : Gateway) → IsSingle g → IsSingle (on_closed k code g)
unfolding on_closed
on_closed-IsSingle k code g v =
    either (contains fatal_codes code) _ _
      (on_close-IsSingle k (record g { terminating = true }) (ending-IsSingle g v))
      (either (code == 4007) _ _
        (on_close-IsSingle k (reset g) (same-IsSingle g (reset g) refl refl v))
        (on_close-IsSingle k g v))

pub on_read-IsSingle : (k : ℕ) (r : Read) (g : Gateway) → IsSingle g → IsSingle (on_read k r g)
unfolding on_read
on_read-IsSingle k (closed code) g v = on_closed-IsSingle k code g v
on_read-IsSingle k cut g v = on_close-IsSingle k g v
on_read-IsSingle k canceled g v = v
on_read-IsSingle k partial g v = v
on_read-IsSingle k broken g v = either (is_closing k g) _ _ v (restart-IsSingle k g v)
on_read-IsSingle k (received p) g v = either (is_closing k g) _ _ v (on_payload-IsSingle k p g v)

on_write-IsSingle : (k : ℕ) (r : Write) (g : Gateway) → IsSingle g → IsSingle (on_write k r g)
unfolding on_write pop_front
on_write-IsSingle k r g v = written r
  where
    done : IsSingle (update_session k completed g)
    done = update_session-IsSingle k completed g (λ s. refl) v

    written : (r : Write) → IsSingle (on_write k r g)
    written write_canceled = done
    written write_failed =
        either (is_closing k g) _ _ done (restart-IsSingle k (update_session k completed g) done)
    written sent = either (is_closing k g) _ _ done (update_session-IsSingle k _ g (λ s. refl) v)

on_expire-IsSingle : (k : ℕ) (g : Gateway) → IsSingle g → IsSingle (on_expire k g)
unfolding on_expire heartbeat send
on_expire-IsSingle k g v = elim (Option-cases (find k g.sessions)) [
  | inl missing ↦ rw (on_expire, missing) v
  | inr (s, q) ↦
      rw (on_expire, q)
        (either s.closing _ _ late (
          either (not s.hb_ack) _ _ (restart-IsSingle k (update_session k expired g) late)
            (update_session-IsSingle k _ (update_session k expired g) (λ s. refl) late)))
]
  where
    late : IsSingle (update_session k expired g)
    late = update_session-IsSingle k expired g (λ s. refl) v

connected-IsSingle :
    (k fetched : ℕ) (g : Gateway)
    → 1 ≤ g.connecting
    → find k g.sessions ≡ none
    → IsSingle g
    → IsSingle (connected k fetched g)
unfolding connected
connected-IsSingle k fetched g le fresh v =
    same-IsSingle g (connected k fetched g) (omega (arith, live-put_new k opened g.sessions fresh))
      refl v

retry-IsSingle : (now : ℕ) (g : Gateway) → 1 ≤ g.connecting → IsSingle g → IsSingle (retry now g)
unfolding retry
retry-IsSingle now g le v =
    either (g.error_started_at == 0) _ _ (same-IsSingle g _ (omega arith) refl v) (
      either (ltb 60 (now - g.error_started_at)) _ _ (cleared g.resume_gateway_url)
        (same-IsSingle g _ (omega arith) refl v))
  where
    failed : Gateway
    failed = record g { connecting = g.connecting - 1; retrying = g.retrying + 1 }

    cleared :
        (url : Option ℕ)
        → IsSingle (elim url [
          | none ↦ record failed { cached_gateway_url = none; error_started_at = now }
          | some u ↦ record failed { resume_gateway_url = none; error_started_at = now }
        ])
    cleared none = same-IsSingle g _ (omega arith) refl v
    cleared (some u) = same-IsSingle g _ (omega arith) refl v

retry_over-IsSingle : (g : Gateway) → 1 ≤ g.retrying → IsSingle g → IsSingle (retry_over g)
unfolding retry_over run_session IsSingle
retry_over-IsSingle g le (few, one) = elim (Bool-cases g.terminating) [
  | inl ending ↦ rw ending (omega arith, λ (p : true ≡ false). absurd (ground arith))
  | inr going ↦ rw going (omega arith, λ (p : false ≡ false). omega (arith, one going))
]

terminate-IsSingle : (g : Gateway) → IsSingle g → IsSingle (terminate g)
unfolding terminate
terminate-IsSingle g v = elim (Option-cases g.ws_session) [
  | inl unset ↦ rw (terminate, unset) (ending-IsSingle g v)
  | inr (k, current) ↦
      rw (terminate, current)
        (restart-IsSingle k (record g { terminating = true }) (ending-IsSingle g v))
]

Step-IsSingle : {g h : Gateway} → Step g h → IsSingle g → IsSingle h
unfolding on_first_read
Step-IsSingle (connects {g} k fetched le fresh) v = connected-IsSingle k fetched g le fresh v
Step-IsSingle (fails {g} now le) v = retry-IsSingle now g le v
Step-IsSingle (retries {g} le) v = retry_over-IsSingle g le v
Step-IsSingle (reads_first {g} k r) v =
    on_read-IsSingle k r (record g { ws_session = some k }) (same-IsSingle g _ refl refl v)
Step-IsSingle (reads {g} k r) v = on_read-IsSingle k r g v
Step-IsSingle (writes {g} k s r q le c) v = on_write-IsSingle k r g v
Step-IsSingle (elapses {g} k) v = update_session-IsSingle k elapse g elapse_keeps v
Step-IsSingle (expires {g} k s q le) v = on_expire-IsSingle k g v
Step-IsSingle (sends {g} k n) v =
    update_session-IsSingle k (send (request_message n)) g (λ s. unfold send in refl) v
Step-IsSingle (restarts {g} k) v = restart-IsSingle k g v
Step-IsSingle (terminates {g}) v = terminate-IsSingle g v

-- However the handlers run, as long as no exception escapes from one: until the gateway terminates
-- there is exactly one session that is not closing or one attempt to get one, and then there is at
-- most one.
pub Reachable-IsSingle : (g : Gateway) → Reachable g → IsSingle g
unfolding IsSingle live run_session
Reachable-IsSingle g started = (omega arith, λ p. refl)
Reachable-IsSingle _ (further {g} r s) = Step-IsSingle s (Reachable-IsSingle g r)
