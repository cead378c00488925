-- ===== src/Gateway/Single.antt =====
-- There is one session or one attempt to get one.
use greek_bot.Prelude.{
  ℕ, ◌+◌, ◌≤◌, ◌≡◌, false, List, [], ◌∷◌, none, some, ◌==◌, if◌then◌else◌, arith, Bool-cases, inl,
  inr, ◌∙◌, true, Bool, Option-cases, ap, sym, refl,
}
use greek_bot.Prelude.Table.{find, put}
use greek_bot.Gateway.State.{
  Session, Gateway, restart, on_close, close_session, update_session, run_session,
}

abbrev alive : Session → ℕ
alive s = if s.closing then 0 else 1

-- The number of sessions that are not closing.
unfoldable pub live : List (ℕ × Session) → ℕ
live [] = 0
live ((k, s) ∷ t) = alive s + live t

live-put :
    (k : ℕ) (s s' : Session) (t : List (ℕ × Session))
    → find k t ≡ some s
    → live (put k s' t) + alive s ≡ live t + alive s'
unfolding live find put
live-put k s s' [] q = ground arith
live-put k s s' ((j, r) ∷ t) q = elim (Bool-cases (j == k)) [
  | inl here ↦ rw here (ground arith)
  | inr there ↦ rw there (ground (arith, live-put k s s' t))
]

pub live-put_new :
    (k : ℕ) (s : Session) (t : List (ℕ × Session))
    → find k t ≡ none
    → live (put k s t) ≡ live t + alive s
unfolding live find put
live-put_new k s [] q = omega arith
live-put_new k s ((j, r) ∷ t) q = ground (arith, live-put_new k s t)

-- Sessions that are not closing, and attempts.
abbrev pub attempts : Gateway → ℕ
attempts g = live g.sessions + g.connecting + g.retrying

unfoldable pub IsSingle : Gateway → Type 0
IsSingle g = (attempts g ≤ 1) × (g.terminating ≡ false → attempts g ≡ 1)

-- A change that keeps the attempts and the end in sight.
pub same-IsSingle :
    (g h : Gateway)
    → attempts h ≡ attempts g
    → h.terminating ≡ g.terminating
    → IsSingle g
    → IsSingle h
unfolding IsSingle
same-IsSingle g h a t (le, one) = (omega (arith, a, le), λ going. a ∙ one (sym t ∙ going))

pub ending-IsSingle : (g : Gateway) → IsSingle g → IsSingle (record g { terminating = true })
unfolding IsSingle
ending-IsSingle g (le, one) = (le, λ going. ground arith)

alive_closing : (s : Session) (b : Bool) → s.closing ≡ b → alive s ≡ (if b then 0 else 1)
alive_closing s b q = ap (λ c. if c then 0 else 1) q

close_session-IsSingle :
    (k : ℕ) (s : Session) (g : Gateway)
    → find k g.sessions ≡ some s
    → IsSingle g
    → IsSingle (close_session k s g)
unfolding close_session run_session IsSingle
close_session-IsSingle k s g q (le, one) = elim (Bool-cases s.closing) [
  | inl before ↦ rw before (le, one)
  | inr live_yet ↦
      let moved = live-put k s (record s { closing = true; timer = false }) g.sessions q in
      let was = alive_closing s false live_yet in
      elim (Bool-cases g.terminating) [
        | inl ending ↦
            rw (live_yet, ending) ((omega arith), λ (going : true ≡ false). absurd (ground arith))
        | inr going ↦
            rw (live_yet, going)
              (omega (arith, one going), λ (p : false ≡ false). omega (arith, one going))
      ]
]

pub restart-IsSingle : (k : ℕ) (g : Gateway) → IsSingle g → IsSingle (restart k g)
unfolding restart
restart-IsSingle k g v = elim (Option-cases (find k g.sessions)) [
  | inl missing ↦ rw (restart, missing) v
  | inr (s, q) ↦ rw (restart, q) (close_session-IsSingle k s g q v)
]

pub on_close-IsSingle : (k : ℕ) (g : Gateway) → IsSingle g → IsSingle (on_close k g)
unfolding on_close
on_close-IsSingle k g v = elim (Option-cases (find k g.sessions)) [
  | inl missing ↦ rw (on_close, missing) v
  | inr (s, q) ↦ rw (on_close, q) (close_session-IsSingle k s g q v)
]

pub update_session-IsSingle :
    (k : ℕ) (f : Session → Session) (g : Gateway)
    → ((s : Session) → (f s).closing ≡ s.closing)
    → IsSingle g
    → IsSingle (update_session k f g)
unfolding update_session
update_session-IsSingle k f g keeps v = elim (Option-cases (find k g.sessions)) [
  | inl missing ↦ rw (update_session, missing) v
  | inr (s, q) ↦
      rw (update_session, q)
        (same-IsSingle g (record g { sessions = put k (f s) g.sessions })
          (omega (arith, live-put k s (f s) g.sessions q, alive_closing (f s) s.closing (keeps s)))
          refl v)
]
