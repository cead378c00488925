-- ===== src/Gateway/Queue.antt =====
-- The writes stay orderly however the handlers run.
use greek_bot.Prelude.{
  ℕ, ◌+◌, ◌-◌, ◌≡◌, true, false, Option, none, some, ◌==◌, if◌then◌else◌, arith, refl, Option-cases,
  Bool-cases, inl, inr, subst, sym, ltb, some_inj, ◌∙◌, ap, drop, ==_refl, length-drop,
}
use greek_bot.Prelude.Table.{find, put, find-put, put-put}
use greek_bot.Gateway.State.{
  Session, Gateway, run_session, restart, close_session, update_session, send, pop_front, opened,
  request_message,
}
use greek_bot.Gateway.Handlers.{
  Write, sent, write_canceled, write_failed, on_first_read, on_write, elapse, connected, retry,
  retry_over, terminate, completed, is_closing,
}
use greek_bot.Gateway.Steps.{
  Step, connects, fails, retries, reads_first, reads, writes, elapses, expires, sends, restarts,
  terminates, Reachable, started, further,
}
use greek_bot.Gateway.Writes.{
  IsOrderly, send-IsOrderly, pop_front-IsOrderly, completed-IsOrderly, flags-IsOrderly,
}
use greek_bot.Gateway.Orderly.{
  AllOrderly, same-AllOrderly, put-AllOrderly, restart-AllOrderly, update-AllOrderly,
  on_read-AllOrderly, on_expire-AllOrderly, either,
}

closing_of :
    (k : ℕ) (s : Session) (g : Gateway) → find k g.sessions ≡ some s → is_closing k g ≡ s.closing
closing_of k s g q = rw (is_closing, q) refl

find-same :
    (k : ℕ) (s s' : Session) (g : Gateway)
    → find k g.sessions ≡ some s
    → find k g.sessions ≡ some s'
    → s ≡ s'
find-same k s s' g q r = some_inj (sym q ∙ r)

updated :
    (k : ℕ) (s : Session) (f : Session → Session) (g : Gateway)
    → find k g.sessions ≡ some s
    → update_session k f g ≡ record g { sessions = put k (f s) g.sessions }
unfolding update_session
updated k s f g q = rw (update_session, q) refl

restarted :
    (k : ℕ) (s : Session) (g : Gateway)
    → find k g.sessions ≡ some s
    → restart k g ≡ close_session k s g
unfolding restart
restarted k s g q = rw (restart, q) refl

-- Closing a session replaces it, so that what it was like does not matter.
close_after-AllOrderly :
    (k : ℕ) (s s' : Session) (g : Gateway)
    → s.closing ≡ false
    → IsOrderly (record s { closing = true; timer = false })
    → AllOrderly g
    → AllOrderly (close_session k s (record g { sessions = put k s' g.sessions }))
unfolding close_session run_session
close_after-AllOrderly k s s' g going new v = elim (Bool-cases g.terminating) [
  | inl ending ↦
      rw (close_session, going, ending)
        (put-AllOrderly k (record s { closing = true; timer = false }) g _
          (put-put k _ s' g.sessions) new v)
  | inr on ↦
      rw (close_session, going, on)
        (put-AllOrderly k (record s { closing = true; timer = false }) g _
          (put-put k _ s' g.sessions) new v)
]

-- After a failed write the session is closed.
failed-AllOrderly :
    (k : ℕ) (s : Session) (g : Gateway)
    → find k g.sessions ≡ some s
    → s.closing ≡ false
    → AllOrderly g
    → AllOrderly (restart k (update_session k completed g))
unfolding AllOrderly
failed-AllOrderly k s g q going v =
    subst AllOrderly
      (sym (
        ap (restart k) (updated k s completed g q)
        ∙ restarted k (completed s) (record g { sessions = put k (completed s) g.sessions }) found))
      (close_after-AllOrderly k (completed s) (completed s) g going new v)
  where
    found : find k (put k (completed s) g.sessions) ≡ some (completed s)
    found = rw (find-put k k (completed s) g.sessions, ==_refl k) refl

    new : IsOrderly (record s { writing = drop 1 s.writing; closing = true; timer = false })
    new = record {
      one = omega (arith, length-drop 1 s.writing, (v k s q).one);
      idle = λ p. ap (drop 1) ((v k s q).idle p);
      front = λ (p : true ≡ false). absurd (ground arith);
    }

on_write-AllOrderly :
    (k : ℕ) (s : Session) (r : Write) (g : Gateway)
    → find k g.sessions ≡ some s
    → (r ≡ write_canceled → s.closing ≡ true)
    → AllOrderly g
    → AllOrderly (on_write k r g)
unfolding on_write
on_write-AllOrderly k s write_canceled g q c v =
    update-AllOrderly k completed g
      (λ s' q' u.
        completed-IsOrderly s' (ap (λ (x : Session). x.closing) (find-same k s' s g q' q) ∙ c refl)
          u)
      v
on_write-AllOrderly k s write_failed g q c v =
    either (is_closing k g) _ _
      (λ p.
        update-AllOrderly k completed g
          (λ s' q' u. completed-IsOrderly s' (sym (closing_of k s' g q') ∙ p) u) v)
      (λ p. failed-AllOrderly k s g q (sym (closing_of k s g q) ∙ p) v)
on_write-AllOrderly k s sent g q c v =
    either (is_closing k g) _ _
      (λ p.
        update-AllOrderly k completed g
          (λ s' q' u. completed-IsOrderly s' (sym (closing_of k s' g q') ∙ p) u) v)
      (λ p.
        update-AllOrderly k (λ s. pop_front (completed s)) g
          (λ s' q' u. pop_front-IsOrderly s' (sym (closing_of k s' g q') ∙ p) u) v)

elapse-IsOrderly : (s : Session) → IsOrderly s → IsOrderly (elapse s)
elapse-IsOrderly s v = elim (Bool-cases s.timer) [
  | inl waiting ↦
      subst (λ b. IsOrderly (if b then record s { timer = false; due = s.due + 1 } else s))
        (sym waiting)
        (flags-IsOrderly s (record s { timer = false; due = s.due + 1 }) refl refl (λ p. p) v)
  | inr unset ↦
      subst (λ b. IsOrderly (if b then record s { timer = false; due = s.due + 1 } else s))
        (sym unset) v
]

retry-AllOrderly : (now : ℕ) (g : Gateway) → AllOrderly g → AllOrderly (retry now g)
unfolding retry
retry-AllOrderly now g v =
    either (g.error_started_at == 0) _ _ (λ p. same-AllOrderly g _ refl v)
      (λ p.
        either (ltb 60 (now - g.error_started_at)) _ _ (λ r. cleared g.resume_gateway_url)
          (λ r. same-AllOrderly g _ refl v))
  where
    failed : Gateway
    failed = record g { connecting = g.connecting - 1; retrying = g.retrying + 1 }

    cleared :
        (url : Option ℕ)
        → AllOrderly (elim url [
          | none ↦ record failed { cached_gateway_url = none; error_started_at = now }
          | some u ↦ record failed { resume_gateway_url = none; error_started_at = now }
        ])
    cleared none = same-AllOrderly g _ refl v
    cleared (some u) = same-AllOrderly g _ refl v

terminate-AllOrderly : (g : Gateway) → AllOrderly g → AllOrderly (terminate g)
unfolding terminate
terminate-AllOrderly g v = elim (Option-cases g.ws_session) [
  | inl unset ↦ rw (terminate, unset) (same-AllOrderly g (record g { terminating = true }) refl v)
  | inr (k, current) ↦
      rw (terminate, current)
        (restart-AllOrderly k (record g { terminating = true })
          (same-AllOrderly g (record g { terminating = true }) refl v))
]

Step-AllOrderly : {g h : Gateway} → Step g h → AllOrderly g → AllOrderly h
unfolding on_first_read connected retry_over run_session
Step-AllOrderly (connects {g} k fetched le fresh) v =
    put-AllOrderly k opened g (connected k fetched g) refl
      (record { one = omega arith; idle = λ p. refl; front = λ p. refl }) v
Step-AllOrderly (fails {g} now le) v = retry-AllOrderly now g v
Step-AllOrderly (retries {g} le) v =
    either g.terminating _ _ (λ p. same-AllOrderly g _ refl v) (λ p. same-AllOrderly g _ refl v)
Step-AllOrderly (reads_first {g} k r) v =
    on_read-AllOrderly k r (record g { ws_session = some k }) (same-AllOrderly g _ refl v)
Step-AllOrderly (reads {g} k r) v = on_read-AllOrderly k r g v
Step-AllOrderly (writes {g} k s r q le c) v = on_write-AllOrderly k s r g q c v
Step-AllOrderly (elapses {g} k) v = update-AllOrderly k elapse g (λ s q u. elapse-IsOrderly s u) v
Step-AllOrderly (expires {g} k s q le) v = on_expire-AllOrderly k g v
Step-AllOrderly (sends {g} k n) v =
    update-AllOrderly k (send (request_message n)) g
      (λ s q u. send-IsOrderly (request_message n) s u) v
Step-AllOrderly (restarts {g} k) v = restart-AllOrderly k g v
Step-AllOrderly (terminates {g}) v = terminate-AllOrderly g v

-- However the handlers run, and if only the closing of its stream cancels a write: each session has
-- at most one write under way, and unless the session is closing that is the write of the first
-- message of its queue, whenever the queue is not empty.
pub Reachable-AllOrderly : (g : Gateway) → Reachable g → AllOrderly g
unfolding AllOrderly run_session find
Reachable-AllOrderly g started = λ k s q. absurd (ground (arith, q))
Reachable-AllOrderly _ (further {g} r s) = Step-AllOrderly s (Reachable-AllOrderly g r)
