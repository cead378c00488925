-- ===== src/Starboard/Steps.antt =====
-- Each way in which a handler changes an entry and its post keeps the channel and the table in
-- agreement.
use greek_bot.Prelude.{
  ℕ, ◌≤◌, ◌<◌, ◌≡◌, ◌≢◌, refl, sym, ap, ◌∙◌, none, some, ◌==◌, ◌⊎◌, inl, inr, Bool-cases, ==_iff,
  arith, subst, false, true,
}
use greek_bot.Prelude.Table.{find, put, any, any-find}
use greek_bot.Starboard.Table.{Entry, is_taken, Starboard}
use greek_bot.Starboard.Reactions.{World, Posts, show, hide}
use greek_bot.Prelude.{some_inj}
use greek_bot.Starboard.Consistency.{IsConsistent, Shown, put-IsConsistent}

eqb_ne : (s j : ℕ) → (s == j) ≡ false → s ≢ j
eqb_ne s j h p = ground arith

show_self : (s n : ℕ) (posts : Posts) → show s n posts s ≡ some n
unfolding show
show_self s n posts = ground arith

show_ne : (s j n : ℕ) (posts : Posts) → s ≢ j → show s n posts j ≡ posts j
unfolding show
show_ne s j n posts h = ground arith

show_other :
    (s j n k : ℕ) (posts : Posts) → (s == j) ≡ false → show s n posts j ≡ some k → posts j ≡ some k
unfolding show
show_other s j n k posts h e = ground arith

hide_ne : (s j : ℕ) (posts : Posts) → s ≢ j → hide s posts j ≡ posts j
unfolding hide
hide_ne s j posts h = ground arith

hide_other :
    (s j k : ℕ) (posts : Posts) → (s == j) ≡ false → hide s posts j ≡ some k → posts j ≡ some k
unfolding hide
hide_other s j k posts h e = ground arith

hide-some : (s j k : ℕ) (posts : Posts) → (s == j) ≡ true → hide s posts j ≢ some k
unfolding hide
hide-some s j k posts h e = ground arith

-- An id that no row of another message has.
taken_ne :
    (m s j s' : ℕ) (d : Entry) (t : Starboard)
    → any (is_taken m s) t ≡ false
    → m ≢ j
    → find j t ≡ some d
    → d.sb_msg_id ≡ some s'
    → s ≢ s'
taken_ne m s j s' d t fresh ne q ds p = go (any-find (is_taken m s) j d t fresh q)
  where
    go : is_taken m s j d ≡ false → ⊥
    go h = ground arith

-- The message has no post.
abbrev pub Unposted : ℕ → World → Type 0
Unposted m w = (s : ℕ) (d : Entry) → find m w.table ≡ some d → d.sb_msg_id ≢ some s

module _ (m : ℕ) (w : World) (v : IsConsistent w) where
  -- A post belongs to the message or to the row of another message.
  owner :
      (s n : ℕ)
      → w.posts s ≡ some n
      → ((d : Entry) × (find m w.table ≡ some d) × (d.sb_msg_id ≡ some s))
        ⊎ ((j : ℕ) × (d : Entry) × (m ≢ j) × (find j w.table ≡ some d) × (d.sb_msg_id ≡ some s))
  owner s n h = let (k, e, q, es) = v.owned s n h in go k e q es
    where
      go :
          (k : ℕ) (e : Entry)
          → find k w.table ≡ some e
          → e.sb_msg_id ≡ some s
          → ((d : Entry) × (find m w.table ≡ some d) × (d.sb_msg_id ≡ some s))
            ⊎ ((j : ℕ) × (d : Entry) × (m ≢ j) × (find j w.table ≡ some d) × (d.sb_msg_id ≡ some s))
      go k e q es = elim (Bool-cases (m == k)) [
        | inl same ↦ inl (e, ap (λ x. find x w.table) ((==_iff m k).0 same) ∙ q, es)
        | inr other ↦ inr (k, e, (λ (p : m ≡ k). ground arith), q, es)
      ]

  posted_ne_zero :
      (old : Entry) (s : ℕ) → find m w.table ≡ some old → old.sb_msg_id ≡ some s → s ≢ 0
  posted_ne_zero old s q os = (subst (Shown w.posts old.num) os (v.shown m old q)).0

  posts_differ :
      (old d : Entry) (j s s' : ℕ)
      → m ≢ j
      → find m w.table ≡ some old
      → old.sb_msg_id ≡ some s
      → find j w.table ≡ some d
      → d.sb_msg_id ≡ some s'
      → s ≢ s'
  posts_differ old d j s s' ne q os qd ds p = ne (v.unique m j s' old d q qd (os ∙ ap some p) ds)

  -- Below the threshold, without a post before or after.
  pub Unposted-IsConsistent :
      (new : Entry)
      → Unposted m w
      → new.sb_msg_id ≡ none
      → new.num < 5
      → 1 ≤ new.num
      → IsConsistent (record w { table = put m new w.table })
  Unposted-IsConsistent new un e lt pos =
      put-IsConsistent m new w.posts w v pos (subst (Shown w.posts new.num) (sym e) lt)
        (λ j s d ne q ds. (refl, λ p. cc (sym e ∙ p)))
        (λ s n h. elim (owner s n h) [
          | inl (d, q, ds) ↦ absurd (un s d q ds)
          | inr other ↦ inr other
        ])

  -- A post that is edited to the new number.
  pub edited-IsConsistent :
      (old new : Entry) (s : ℕ)
      → find m w.table ≡ some old
      → old.sb_msg_id ≡ some s
      → new.sb_msg_id ≡ some s
      → 5 ≤ new.num
      → IsConsistent (record { table = put m new w.table; posts = show s new.num w.posts })
  edited-IsConsistent old new s q os e le =
      put-IsConsistent m new (show s new.num w.posts) w v (omega arith)
        (subst (Shown (show s new.num w.posts) new.num) (sym e)
          ((posted_ne_zero old s q os), le, show_self s new.num w.posts))
        (λ j s' d ne qd ds.
          let other = posts_differ old d j s s' ne q os qd ds in
          (show_ne s s' new.num w.posts other, λ p. other (some_inj (sym e ∙ p))))
        (λ s' n h. elim (Bool-cases (s == s')) [
          | inl same ↦ inl (e ∙ ap some ((==_iff s s').0 same))
          | inr other ↦ elim (owner s' n (show_other s s' new.num n w.posts other h)) [
            | inl (d, qd, ds) ↦
                inl (e ∙ sym os ∙ ap (λ (x : Entry). x.sb_msg_id) (some_inj (sym q ∙ qd)) ∙ ds)
            | inr r ↦ inr r
          ]
        ])

  -- A new post, under an id that no other row has.
  pub published-IsConsistent :
      (new : Entry) (s : ℕ)
      → Unposted m w
      → any (is_taken m s) w.table ≡ false
      → s ≢ 0
      → new.sb_msg_id ≡ some s
      → 5 ≤ new.num
      → IsConsistent (record { table = put m new w.table; posts = show s new.num w.posts })
  published-IsConsistent new s un fresh s0 e le =
      put-IsConsistent m new (show s new.num w.posts) w v (omega arith)
        (subst (Shown (show s new.num w.posts) new.num) (sym e)
          (s0, le, show_self s new.num w.posts))
        (λ j s' d ne qd ds.
          let other = taken_ne m s j s' d w.table fresh ne qd ds in
          (show_ne s s' new.num w.posts other, λ p. other (some_inj (sym e ∙ p))))
        (λ s' n h. elim (Bool-cases (s == s')) [
          | inl same ↦ inl (e ∙ ap some ((==_iff s s').0 same))
          | inr other ↦ elim (owner s' n (show_other s s' new.num n w.posts other h)) [
            | inl (d, qd, ds) ↦ absurd (un s' d qd ds)
            | inr r ↦ inr r
          ]
        ])

  -- A post that is taken down.
  pub hidden-IsConsistent :
      (old new : Entry) (s : ℕ)
      → find m w.table ≡ some old
      → old.sb_msg_id ≡ some s
      → new.sb_msg_id ≡ none
      → new.num < 5
      → 1 ≤ new.num
      → IsConsistent (record { table = put m new w.table; posts = hide s w.posts })
  hidden-IsConsistent old new s q os e lt pos =
      put-IsConsistent m new (hide s w.posts) w v pos
        (subst (Shown (hide s w.posts) new.num) (sym e) lt)
        (λ j s' d ne qd ds.
          (hide_ne s s' w.posts (posts_differ old d j s s' ne q os qd ds), λ p. cc (sym e ∙ p)))
        (λ s' n h. elim (Bool-cases (s == s')) [
          | inl same ↦ absurd (hide-some s s' n w.posts same h)
          | inr other ↦ elim (owner s' n (hide_other s s' n w.posts other h)) [
            | inl (d, qd, ds) ↦ absurd (
                eqb_ne s s' other (
                  some_inj (sym os ∙ ap (λ (x : Entry). x.sb_msg_id) (some_inj (sym q ∙ qd)) ∙ ds)))
            | inr r ↦ inr r
          ]
        ])
