-- ===== src/Members/Delivery.antt =====
-- What a request yields when the server answers it as documented, and what happens at its end.
use greek_bot.Prelude.{
  ℕ, ◌≡◌, ◌<◌, ◌≤◌, Bool, true, false, List, [], ◌∷◌, ◌++◌, some, refl, arith, length, ap, sym, ◌∙◌,
  subst, ◌≢◌, ◌-◌,
}
use mathlib.Core.List.{append-nil}
use greek_bot.Members.Chunks.{
  Chunk, Generator, MembersRequest, awaits_first, takes, awaits, finished, ended_by, resumed_ended,
  requested, on_chunk, go_on, suspend, resume_generator, rgm_timeout, RequestError,
}
use greek_bot.Members.Series.{
  all_members, Delivered, sent, arrives, turns, IsAt, state_of, IsDelivering, arrives-at, turns-at,
}

module _ {Member : Type 0} where
  Delivered-IsDelivering :
      (n : ℕ) (cs : List (Chunk Member)) (s : MembersRequest Member)
      → Delivered n cs s
      → IsDelivering n cs s
  unfolding requested suspend
  Delivered-IsDelivering n _ _ (sent now) = record {
    whole = refl;
    bounded = omega arith;
    all = refl;
    at = (refl, refl, refl);
  }
  Delivered-IsDelivering n _ _ (arrives {cs} {s} c d ix ct lt) =
      let v = Delivered-IsDelivering n cs s d in
      subst (λ r. IsDelivering n (cs ++ (c ∷ [])) (on_chunk (some c) r)) (sym v.whole)
        (arrives-at n cs s.chunks s.coro s.generator c s.started_at s.yielded v.at v.all ix ct lt)
  Delivered-IsDelivering n _ _ (turns {cs} {s} now d) =
      let v = Delivered-IsDelivering n cs s d in
      subst (λ r. IsDelivering n cs (go_on now r)) (sym v.whole)
        (turns-at n cs s.chunks s.coro s.generator now s.started_at s.yielded v.bounded v.at v.all)

  -- If n chunks arrive in their order, one at least, and no reset, timeout or rate limit comes in
  -- between, then whenever the generator takes its turns: it
  -- has yielded the members of the chunks in their order, but for those that it has not taken yet;
  -- it ends with no exception; it does not wait once all chunks have arrived; and if it has finished
  -- it has yielded all members of all chunks.
  pub members_in_order :
      (n : ℕ) (cs : List (Chunk Member)) (s : MembersRequest Member)
      → 1 ≤ n
      → Delivered n cs s
      → (s.yielded ++ all_members s.chunks ≡ all_members cs)
        × ((e : RequestError) → s.generator ≢ ended_by e)
        × (length cs ≡ n → s.coro ≡ false)
        × (s.generator ≡ finished → (length cs ≡ n) × (s.yielded ≡ all_members cs))
  members_in_order n cs s one d =
      let v = Delivered-IsDelivering n cs s d in
      let (calm, awake, over) = read s.chunks s.coro s.generator v.at in
      (
        v.all,
        calm,
        awake,
        λ p. (
          (over p).0,
          sym (append-nil s.yielded)
              ∙ ap (λ ch. s.yielded ++ all_members ch) (sym (over p).1)
              ∙ v.all,
        ),
      )
    where
      read :
          (ch : List (Chunk Member)) (co : Bool) (g : Generator)
          → IsAt n (length cs) ch co g
          → ((e : RequestError) → g ≢ ended_by e)
            × (length cs ≡ n → co ≡ false)
            × (g ≡ finished → (length cs ≡ n) × (ch ≡ []))
      read ch co awaits_first (on, k, e) = (
        λ r p. ground (arith, p),
        λ l. absurd (omega (arith, k, l)),
        λ p. absurd (ground (arith, p)),
      )
      read ch co (takes i m) (off, mn, ik, w, v) =
          (λ r p. ground (arith, p), λ l. off, λ p. absurd (ground (arith, p)))
      read ch co (awaits i m) (on, mn, ik, w, e, few) = (
        λ r p. ground (arith, p),
        λ l. absurd (omega (arith, ik, l, few)),
        λ p. absurd (ground (arith, p)),
      )
      read ch co finished (off, k, e) = (λ r p. ground (arith, p), λ l. off, λ p. (k, e))
      read ch co (ended_by r) v = absurd v
      read ch co resumed_ended v = absurd v

  -- The timeout of a request that waits ends its generator but leaves it in the entry: a chunk that
  -- arrives before the entry is erased resumes the generator that has ended.
  pub timeout_resumes_ended :
      (n now : ℕ) (cs : List (Chunk Member)) (c : Chunk Member) (s : MembersRequest Member)
      → Delivered n cs s
      → s.coro ≡ true
      → 120 < now - s.started_at
      → (on_chunk (some c) (rgm_timeout now s)).generator ≡ resumed_ended
  unfolding rgm_timeout on_chunk resume_generator
  timeout_resumes_ended n now cs c s d on late =
      let v = Delivered-IsDelivering n cs s d in
      subst (λ r. (on_chunk (some c) (rgm_timeout now r)).generator ≡ resumed_ended) (sym v.whole)
        (resumed s.chunks s.coro s.generator v.at on)
    where
      resumed :
          (ch : List (Chunk Member)) (co : Bool) (g : Generator)
          → IsAt n (length cs) ch co g
          → co ≡ true
          → (on_chunk
              (some c)
              (rgm_timeout now (state_of ch co s.started_at g s.yielded))).generator
            ≡ resumed_ended
      resumed ch co awaits_first v on = rw on (ground (arith, late))
      resumed ch co (takes i m) (off, mn, ik, w, v) on = absurd (ground (arith, sym off ∙ on))
      resumed ch co (awaits i m) v on = rw on (ground (arith, late))
      resumed ch co finished (off, k, e) on = absurd (ground (arith, sym off ∙ on))
      resumed ch co (ended_by r) v on = absurd v
      resumed ch co resumed_ended v on = absurd v
