-- ===== src/Members/Series.antt =====
-- One turn of the generator, or one chunk, when the chunks arrive as documented.
use greek_bot.Prelude.{
  ℕ, suc, ◌+◌, ◌≡◌, ◌<◌, ◌≤◌, Bool, true, false, List, [], ◌∷◌, ◌++◌, none, some, refl, arith,
  length, length-append, ltb, ap, sym, ◌∙◌, if-holds, if◌then◌else◌, subst, ltb→lt,
}
use mathlib.Core.List.{append_assoc}
use greek_bot.Members.Chunks.{
  Chunk, Generator, MembersRequest, awaits_first, takes, awaits, finished, ended_by, resumed_ended,
  requested, on_chunk, go_on, take_chunk, suspend, resume_generator, is_expected, event_error,
}

module _ {Member : Type 0} where
  -- All members of several chunks.
  abbrev pub all_members : List (Chunk Member) → List Member
  all_members [] = []
  all_members (c ∷ cs) = c.members ++ all_members cs

  -- Of n chunks, those from number i on, in order.
  abbrev pub IsSeries : ℕ → ℕ → List (Chunk Member) → Type 0
  IsSeries n i [] = Unit
  IsSeries n i (c ∷ cs) = (c.index ≡ i) × (c.count ≡ n) × IsSeries n (suc i) cs

  -- The generator takes its turns and the n chunks arrive in their order, in any interleaving.
  pub data Delivered (n : ℕ) : List (Chunk Member) → MembersRequest Member → Type 0 where
    sent : (now : ℕ) → Delivered n [] (requested now)
    arrives :
        {cs : List (Chunk Member)} {s : MembersRequest Member} (c : Chunk Member)
        → Delivered n cs s
        → c.index ≡ length cs
        → c.count ≡ n
        → length cs < n
        → Delivered n (cs ++ (c ∷ [])) (on_chunk (some c) s)
    turns :
        {cs : List (Chunk Member)} {s : MembersRequest Member} (now : ℕ)
        → Delivered n cs s
        → Delivered n cs (go_on now s)

  -- Where the generator is after k chunks have arrived, of which some have not been taken yet.
  abbrev pub IsAt : ℕ → ℕ → List (Chunk Member) → Bool → Generator → Type 0
  IsAt n k cs coro awaits_first = (coro ≡ true) × (k ≡ 0) × (cs ≡ [])
  IsAt n k cs coro (takes i m) =
      (coro ≡ false) × (m ≡ n) × (i + length cs ≡ k) × (1 ≤ k) × IsSeries n i cs
  IsAt n k cs coro (awaits i m) = (coro ≡ true) × (m ≡ n) × (i ≡ k) × (1 ≤ k) × (cs ≡ []) × (i < n)
  IsAt n k cs coro finished = (coro ≡ false) × (k ≡ n) × (cs ≡ [])
  IsAt n k cs coro (ended_by e) = ⊥
  IsAt n k cs coro resumed_ended = ⊥

  -- The parts of a state, of which the exception and the entry are as they were at first.
  abbrev pub state_of :
      List (Chunk Member) → Bool → ℕ → Generator → List Member → MembersRequest Member
  state_of ch co t g ys = record {
    chunks = ch;
    coro = co;
    except = none;
    started_at = t;
    registered = true;
    generator = g;
    yielded = ys;
  }

  pub record IsDelivering (n : ℕ) (cs : List (Chunk Member)) (s : MembersRequest Member)
      : Type 0 where
    pub whole : s ≡ state_of s.chunks s.coro s.started_at s.generator s.yielded
    pub bounded : length cs ≤ n
    pub all : s.yielded ++ all_members s.chunks ≡ all_members cs
    pub at : IsAt n (length cs) s.chunks s.coro s.generator

  all_members-append :
      (cs ds : List (Chunk Member)) → all_members (cs ++ ds) ≡ all_members cs ++ all_members ds
  all_members-append [] ds = refl
  all_members-append (c ∷ cs) ds =
      ap (λ l. c.members ++ l) (all_members-append cs ds)
      ∙ sym (append_assoc c.members (all_members cs) (all_members ds))

  IsSeries-append :
      (n i : ℕ) (cs : List (Chunk Member)) (c : Chunk Member)
      → IsSeries n i cs
      → c.index ≡ i + length cs
      → c.count ≡ n
      → IsSeries n i (cs ++ (c ∷ []))
  IsSeries-append n i [] c v ix ct = (omega (arith, ix), ct, tt)
  IsSeries-append n i (d ∷ cs) c (di, dc, v) ix ct =
      (di, dc, IsSeries-append n (suc i) cs c v (omega (arith, ix)) ct)

  more_members :
      (cs ch : List (Chunk Member)) (c : Chunk Member) (ys : List Member)
      → ys ++ all_members ch ≡ all_members cs
      → ys ++ all_members (ch ++ (c ∷ [])) ≡ all_members (cs ++ (c ∷ []))
  more_members cs ch c ys q =
      ap (λ l. ys ++ l) (all_members-append ch (c ∷ []))
      ∙ sym (append_assoc ys (all_members ch) (all_members (c ∷ [])))
      ∙ ap (λ l. l ++ all_members (c ∷ [])) q
      ∙ sym (all_members-append cs (c ∷ []))

  pub arrives-at :
      (n : ℕ) (cs ch : List (Chunk Member)) (co : Bool) (g : Generator) (c : Chunk Member) (t : ℕ)
      (ys : List Member)
      → IsAt n (length cs) ch co g
      → ys ++ all_members ch ≡ all_members cs
      → c.index ≡ length cs
      → c.count ≡ n
      → length cs < n
      → IsDelivering n (cs ++ (c ∷ [])) (on_chunk (some c) (state_of ch co t g ys))
  unfolding on_chunk resume_generator
  arrives-at n cs ch true awaits_first c t ys (on, k, e) q ix ct lt = record {
    whole = refl;
    bounded = omega (arith, length-append cs (c ∷ []));
    all = more_members cs ch c ys q;
    at = rw e (
      refl,
      ct,
      omega (arith, length-append cs (c ∷ []), k),
      omega (arith, length-append cs (c ∷ [])),
      (omega (arith, ix, k), ct, tt),
    );
  }
  arrives-at n cs ch false awaits_first c t ys (on, k, e) q ix ct lt = absurd (ground (arith, on))
  arrives-at n cs ch true (takes i m) c t ys (off, mn, ik, one, v) q ix ct lt =
      absurd (ground (arith, off))
  arrives-at n cs ch false (takes i m) c t ys (off, mn, ik, one, v) q ix ct lt = record {
    whole = refl;
    bounded = omega (arith, length-append cs (c ∷ []));
    all = more_members cs ch c ys q;
    at = (
      refl,
      mn,
      omega (arith, length-append cs (c ∷ []), length-append ch (c ∷ []), ik),
      omega (arith, length-append cs (c ∷ [])),
      IsSeries-append n i ch c v (omega (arith, ix, ik)) ct,
    );
  }
  arrives-at n cs ch true (awaits i m) c t ys (on, mn, ik, one, e, few) q ix ct lt = record {
    whole = refl;
    bounded = omega (arith, length-append cs (c ∷ []));
    all = more_members cs ch c ys q;
    at = rw e (
      refl,
      mn,
      omega (arith, length-append cs (c ∷ []), ik),
      omega (arith, length-append cs (c ∷ [])),
      (omega (arith, ix, ik), ct, tt),
    );
  }
  arrives-at n cs ch false (awaits i m) c t ys (on, mn, ik, one, e, few) q ix ct lt =
      absurd (ground (arith, on))
  arrives-at n cs ch co finished c t ys (off, k, e) q ix ct lt = absurd (omega (arith, k))
  arrives-at n cs ch co (ended_by r) c t ys v q ix ct lt = absurd v
  arrives-at n cs ch co resumed_ended c t ys v q ix ct lt = absurd v

  pub turns-at :
      (n : ℕ) (cs ch : List (Chunk Member)) (co : Bool) (g : Generator) (now t : ℕ)
      (ys : List Member)
      → length cs ≤ n
      → IsAt n (length cs) ch co g
      → ys ++ all_members ch ≡ all_members cs
      → IsDelivering n cs (go_on now (state_of ch co t g ys))
  unfolding go_on take_chunk suspend
  turns-at n cs ch co awaits_first now t ys le v q = record {
    whole = refl;
    bounded = le;
    all = q;
    at = v;
  }
  turns-at n cs ch co (awaits i m) now t ys le v q = record {
    whole = refl;
    bounded = le;
    all = q;
    at = v;
  }
  turns-at n cs ch co finished now t ys le v q = record {
    whole = refl;
    bounded = le;
    all = q;
    at = v;
  }
  turns-at n cs ch co (ended_by r) now t ys le v q = absurd v
  turns-at n cs ch co resumed_ended now t ys le v q = absurd v
  turns-at n cs ch co (takes i m) now t ys le v q =
      if-holds (IsDelivering n cs) (ltb i m) _ _ (λ more. taken ch v q (ltb→lt _ _ more))
        (λ over. record { whole = refl; bounded = le; all = q; at = over_at ch v over })
    where
      taken :
          (ch : List (Chunk Member))
          → IsAt n (length cs) ch co (takes i m)
          → ys ++ all_members ch ≡ all_members cs
          → i < m
          → IsDelivering n cs (take_chunk now i m (state_of ch co t (takes i m) ys))
      taken [] (off, mn, ik, one, w) q lt = record {
        whole = refl;
        bounded = le;
        all = q;
        at = (refl, mn, omega (arith, ik), one, refl, omega (arith, lt, mn));
      }
      taken (c ∷ ds) (off, mn, ik, one, (ix, ct, w)) q lt =
          subst
            (λ b. IsDelivering n cs (
              if b
              then state_of ds co t (takes (suc i) m) (ys ++ c.members)
              else state_of (c ∷ ds) co t (ended_by event_error) ys))
            (sym (expected c ix ct))
            (record {
              whole = refl;
              bounded = le;
              all = append_assoc ys c.members (all_members ds) ∙ q;
              at = (off, mn, omega (arith, ik), one, w);
            })
        where
          expected : (c : Chunk Member) → c.index ≡ i → c.count ≡ n → is_expected c i m ≡ true
          expected c ix ct = ground (arith, mn, lt)

      over_at :
          (ch : List (Chunk Member))
          → IsAt n (length cs) ch co (takes i m)
          → ltb i m ≡ false
          → IsAt n (length cs) ch co finished
      over_at [] (off, mn, ik, one, w) over = (off, ground (arith, le), refl)
      over_at (c ∷ ds) (off, mn, ik, one, w) over = absurd (ground (arith, le))
