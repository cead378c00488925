-- ===== src/Gateway/Orderly.antt =====
-- Every handler keeps the writes of all sessions orderly.
use greek_bot.Prelude.{
  ℕ, ◌≡◌, Bool, true, false, some, ◌==◌, if◌then◌else◌, arith, refl, Option-cases, Bool-cases, inl,
  inr, subst, sym, contains, not, some_inj, ap, ◌∙◌,
}
use greek_bot.Prelude.Table.{find, put, find-put}
use greek_bot.Gateway.State.{
  Session, Gateway, run_session, restart, on_close, close_session, update_session, heartbeat, wait,
}
use greek_bot.Gateway.Handlers.{
  Read, Payload, dispatch, ready, other_event, heartbeat_request, reconnect, invalid_session, hello,
  heartbeat_ack, unknown, closed, cut, canceled, partial, broken, received, on_read, on_payload,
  on_closed, on_expire, reset, expired, beat_now, say_hello, is_closing, greeting, fatal_codes,
}
use greek_bot.Gateway.Writes.{IsOrderly, send-IsOrderly, flags-IsOrderly, heartbeat-IsOrderly}

unfoldable pub AllOrderly : Gateway → Type 0
AllOrderly g = (k : ℕ) (s : Session) → find k g.sessions ≡ some s → IsOrderly s

pub put-AllOrderly :
    (k : ℕ) (s' : Session) (g h : Gateway)
    → h.sessions ≡ put k s' g.sessions
    → IsOrderly s'
    → AllOrderly g
    → AllOrderly h
unfolding AllOrderly
put-AllOrderly k s' g h e new v j s q = elim (Bool-cases (k == j)) [
  | inl here ↦ subst IsOrderly (some_inj (ground (arith, find-put j k s' g.sessions))) new
  | inr there ↦ v j s (ground (arith, find-put j k s' g.sessions))
]

pub same-AllOrderly : (g h : Gateway) → h.sessions ≡ g.sessions → AllOrderly g → AllOrderly h
unfolding AllOrderly
same-AllOrderly g h e v j s q = v j s (ap (find j) (sym e) ∙ q)

close-AllOrderly :
    (k : ℕ) (s : Session) (g : Gateway)
    → find k g.sessions ≡ some s
    → AllOrderly g
    → AllOrderly (close_session k s g)
unfolding close_session run_session
close-AllOrderly k s g q v = elim (Bool-cases s.closing) [
  | inl before ↦ rw before v
  | inr now ↦
      let s' : Session = record s { closing = true; timer = false } in
      let new =
        flags-IsOrderly s s' refl refl (λ (p : true ≡ false). absurd (ground arith)) (own q) in
      elim (Bool-cases g.terminating) [
        | inl ending ↦ rw (close_session, now, ending) (put-AllOrderly k s' g _ refl new v)
        | inr going ↦ rw (close_session, now, going) (put-AllOrderly k s' g _ refl new v)
      ]
]
  where
    own : find k g.sessions ≡ some s → IsOrderly s
    own q = unfold AllOrderly in v k s q

pub restart-AllOrderly : (k : ℕ) (g : Gateway) → AllOrderly g → AllOrderly (restart k g)
unfolding restart
restart-AllOrderly k g v = elim (Option-cases (find k g.sessions)) [
  | inl missing ↦ rw (restart, missing) v
  | inr (s, q) ↦ rw (restart, q) (close-AllOrderly k s g q v)
]

on_close-AllOrderly : (k : ℕ) (g : Gateway) → AllOrderly g → AllOrderly (on_close k g)
unfolding on_close
on_close-AllOrderly k g v = elim (Option-cases (find k g.sessions)) [
  | inl missing ↦ rw (on_close, missing) v
  | inr (s, q) ↦ rw (on_close, q) (close-AllOrderly k s g q v)
]

pub update-AllOrderly :
    (k : ℕ) (f : Session → Session) (g : Gateway)
    → ((s : Session) → find k g.sessions ≡ some s → IsOrderly s → IsOrderly (f s))
    → AllOrderly g
    → AllOrderly (update_session k f g)
unfolding update_session
update-AllOrderly k f g keeps v = elim (Option-cases (find k g.sessions)) [
  | inl missing ↦ rw (update_session, missing) v
  | inr (s, q) ↦
      rw (update_session, q)
        (put-AllOrderly k (f s) g (record g { sessions = put k (f s) g.sessions }) refl
          (keeps s q (unfold AllOrderly in v k s q)) v)
]

pub either :
    (b : Bool) (g h : Gateway)
    → (b ≡ true → AllOrderly g)
    → (b ≡ false → AllOrderly h)
    → AllOrderly (if b then g else h)
either true g h v w = v refl
either false g h v w = w refl

beat_now-IsOrderly : (n : ℕ) (s : Session) → IsOrderly s → IsOrderly (beat_now n s)
unfolding heartbeat
beat_now-IsOrderly n s v = elim (Bool-cases s.timer) [
  | inl waiting ↦
      subst (λ b. IsOrderly (if b then wait (heartbeat n s) else s)) (sym waiting)
        (flags-IsOrderly (heartbeat n s) (wait (heartbeat n s)) refl refl (λ p. p)
          (heartbeat-IsOrderly n s v))
  | inr unset ↦ subst (λ b. IsOrderly (if b then wait (heartbeat n s) else s)) (sym unset) v
]

on_payload-AllOrderly :
    (k : ℕ) (p : Payload) (g : Gateway) → AllOrderly g → AllOrderly (on_payload k p g)
unfolding on_payload
on_payload-AllOrderly k (dispatch seq (ready id url)) g v = same-AllOrderly g _ refl v
on_payload-AllOrderly k (dispatch seq other_event) g v = same-AllOrderly g _ refl v
on_payload-AllOrderly k heartbeat_request g v =
    update-AllOrderly k (beat_now g.last_sequence) g (λ s q. beat_now-IsOrderly g.last_sequence s) v
on_payload-AllOrderly k (invalid_session true) g v = restart-AllOrderly k g v
on_payload-AllOrderly k (invalid_session false) g v =
    restart-AllOrderly k (reset g) (same-AllOrderly g (reset g) refl v)
on_payload-AllOrderly k reconnect g v = v
on_payload-AllOrderly k hello g v =
    update-AllOrderly k (say_hello (greeting g.session_id g.last_sequence)) g
      (λ s q u.
        send-IsOrderly (greeting g.session_id g.last_sequence) (wait (record s { hb_ack = true }))
          (flags-IsOrderly s (wait (record s { hb_ack = true })) refl refl (λ p. p) u))
      v
on_payload-AllOrderly k heartbeat_ack g v =
    update-AllOrderly k (λ s. record s { hb_ack = true }) g
      (λ s q u. flags-IsOrderly s (record s { hb_ack = true }) refl refl (λ p. p) u) v
on_payload-AllOrderly k unknown g v = v

on_closed-AllOrderly : (k code : ℕ) (g : Gateway) → AllOrderly g → AllOrderly (on_closed k code g)
unfolding on_closed
on_closed-AllOrderly k code g v =
    either (contains fatal_codes code) _ _
      (λ p. on_close-AllOrderly k _ (same-AllOrderly g (record g { terminating = true }) refl v))
      (λ p.
        either (code == 4007) _ _
          (λ r. on_close-AllOrderly k (reset g) (same-AllOrderly g (reset g) refl v))
          (λ r. on_close-AllOrderly k g v))

pub on_read-AllOrderly :
    (k : ℕ) (r : Read) (g : Gateway) → AllOrderly g → AllOrderly (on_read k r g)
unfolding on_read
on_read-AllOrderly k (closed code) g v = on_closed-AllOrderly k code g v
on_read-AllOrderly k cut g v = on_close-AllOrderly k g v
on_read-AllOrderly k canceled g v = v
on_read-AllOrderly k partial g v = v
on_read-AllOrderly k broken g v =
    either (is_closing k g) _ _ (λ p. v) (λ p. restart-AllOrderly k g v)
on_read-AllOrderly k (received p) g v =
    either (is_closing k g) _ _ (λ q. v) (λ q. on_payload-AllOrderly k p g v)

pub on_expire-AllOrderly : (k : ℕ) (g : Gateway) → AllOrderly g → AllOrderly (on_expire k g)
unfolding on_expire
on_expire-AllOrderly k g v = elim (Option-cases (find k g.sessions)) [
  | inl missing ↦ rw (on_expire, missing) v
  | inr (s, q) ↦
      rw (on_expire, q)
        (either s.closing _ _ (λ p. late)
          (λ p.
            either (not s.hb_ack) _ _ (λ r. restart-AllOrderly k (update_session k expired g) late)
              (λ r.
                update-AllOrderly k (λ s. wait (heartbeat g.last_sequence s))
                  (update_session k expired g)
                  (λ s q u.
                    flags-IsOrderly (heartbeat g.last_sequence s)
                      (wait (heartbeat g.last_sequence s)) refl refl (λ p. p)
                      (heartbeat-IsOrderly g.last_sequence s u))
                  late)))
]
  where
    late : AllOrderly (update_session k expired g)
    late =
        update-AllOrderly k expired g (λ s q u. flags-IsOrderly s (expired s) refl refl (λ p. p) u)
          v
