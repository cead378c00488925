-- ===== src/Gateway/Writes.antt =====
-- Messages are written one at a time.
use greek_bot.Prelude.{
  ℕ, suc, ◌≤◌, ◌≡◌, Bool, true, false, List, [], ◌∷◌, ◌==◌, arith, refl, subst, sym, length, take,
  ◌++◌, length-drop, ◌∙◌, ap, drop,
}
use greek_bot.Gateway.State.{Session, Message, heartbeat, send, pop_front}
use greek_bot.Gateway.Handlers.{completed}

-- At most one write is under way; none is if nothing waits; and on a stream that is not closing it is
-- that of the first message that waits.
pub record IsOrderly (s : Session) : Type 0 where
  pub one : length s.writing ≤ 1
  pub idle : s.queue ≡ [] → s.writing ≡ []
  pub front : s.closing ≡ false → s.writing ≡ take 1 s.queue

abbrev session : List Message → List Message → Bool → Bool → Bool → ℕ → Session
session q w ack c t d = record {
  queue = q;
  hb_ack = ack;
  closing = c;
  timer = t;
  due = d;
  writing = w;
}

several : (q : List Message) (m : Message) → (suc (suc (length (q ++ m ∷ []))) == 1) ≡ false
several q m = ground arith

module _ (ack c t : Bool) (d : ℕ) where
  send_parts :
      (m : Message) (q w : List Message)
      → IsOrderly (session q w ack c t d)
      → IsOrderly (send m (session q w ack c t d))
  unfolding send
  send_parts m [] w v =
      let none_written : w ≡ [] = v.idle refl in
      rw none_written (record { one = omega arith; idle = λ p. ground arith; front = λ p. refl })
  send_parts m (x ∷ []) w v = record { one = v.one; idle = λ p. ground arith; front = v.front }
  send_parts m (x ∷ y ∷ q) w v =
      rw (several q m) (record { one = v.one; idle = λ p. ground arith; front = v.front })

  pop_parts :
      (q w : List Message)
      → c ≡ false
      → IsOrderly (session q w ack c t d)
      → IsOrderly (pop_front (completed (session q w ack c t d)))
  unfolding pop_front
  pop_parts [] w going v =
      let none_written : w ≡ [] = v.idle refl in
      rw none_written (record { one = omega arith; idle = λ p. refl; front = λ p. refl })
  pop_parts (x ∷ []) w going v =
      rw (v.front going) (record { one = omega arith; idle = λ p. refl; front = λ p. refl })
  pop_parts (x ∷ y ∷ q) w going v =
      rw (v.front going) (record { one = omega arith; idle = λ p. ground arith; front = λ p. refl })

pub send-IsOrderly : (m : Message) (s : Session) → IsOrderly s → IsOrderly (send m s)
send-IsOrderly m s v = send_parts s.hb_ack s.closing s.timer s.due m s.queue s.writing v

pub pop_front-IsOrderly :
    (s : Session) → s.closing ≡ false → IsOrderly s → IsOrderly (pop_front (completed s))
pop_front-IsOrderly s going v = pop_parts s.hb_ack s.closing s.timer s.due s.queue s.writing going v

pub completed-IsOrderly : (s : Session) → s.closing ≡ true → IsOrderly s → IsOrderly (completed s)
completed-IsOrderly s closing v = record {
  one = omega (arith, length-drop 1 s.writing, v.one);
  idle = λ p. ap (drop 1) (v.idle p);
  front = λ p. absurd (ground (arith, closing, p));
}

-- A change that touches neither the queue nor the writes, and does not open a session again.
pub flags-IsOrderly :
    (s s' : Session)
    → s'.queue ≡ s.queue
    → s'.writing ≡ s.writing
    → (s'.closing ≡ false → s.closing ≡ false)
    → IsOrderly s
    → IsOrderly s'
flags-IsOrderly s s' q w c v = record {
  one = subst (λ x. length x ≤ 1) (sym w) v.one;
  idle = λ p. w ∙ v.idle (sym q ∙ p);
  front = λ p. w ∙ v.front (c p) ∙ ap (take 1) (sym q);
}

pub heartbeat-IsOrderly : (n : ℕ) (s : Session) → IsOrderly s → IsOrderly (heartbeat n s)
unfolding heartbeat
heartbeat-IsOrderly n s v =
    send-IsOrderly _ (record s { hb_ack = false })
      (flags-IsOrderly s (record s { hb_ack = false }) refl refl (λ p. p) v)
