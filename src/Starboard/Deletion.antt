-- ===== src/Starboard/Deletion.antt =====
-- Deleted messages leave the starboard: `process_starboard_message_delete`.
use greek_bot.Prelude.{
  ℕ, ◌≡◌, ◌≢◌, refl, sym, ap, ◌∙◌, true, List, [], ◌∷◌, ◌++◌, Option, none, some, ◌==◌, inl, inr,
  Bool-cases, Option-cases, ==_iff, arith, subst, some_inj, contains, ◌⊎◌, if◌then◌else◌,
}
use greek_bot.Prelude.Table.{find, erase, find-erase}
use greek_bot.Starboard.Table.{Entry, Starboard, column_id, delete_all, returned}
use greek_bot.Starboard.Reactions.{World, Posts, Replies, hide, hide_all, message_delete}
use greek_bot.Starboard.Consistency.{IsConsistent, Shown}

column_id-ne_zero : (s : ℕ) → s ≢ 0 → column_id (some s) ≡ some s
unfolding column_id
column_id-ne_zero s h = ground arith

hide_one : (s j : ℕ) (posts : Posts) → s ≢ j → hide_all (s ∷ []) posts j ≡ posts j
unfolding hide_all hide
hide_one s j posts h = ground arith

hide_self : (s : ℕ) (posts : Posts) → hide_all (s ∷ []) posts s ≡ none
unfolding hide_all hide
hide_self s posts = ground arith

no_hiding : (posts : Posts) → hide_all [] posts ≡ posts
unfolding hide_all
no_hiding posts = refl

-- A row that has another id leaves a post alone.
hide-returned :
    (author num j : ℕ) (sb : Option ℕ) (posts : Posts)
    → sb ≢ some j
    → hide_all (returned (some (record { author_id = author; sb_msg_id = sb; num = num }))) posts j
      ≡ posts j
unfolding column_id
hide-returned author num j none posts h = ap (λ (p : Posts). p j) (no_hiding posts)
hide-returned author num j (some s) posts h = elim (Bool-cases (s == 0)) [
  | inl null ↦ rw (returned, column_id, null) (ap (λ (p : Posts). p j) (no_hiding posts))
  | inr id ↦ rw (returned, column_id, id) (hide_one s j posts (λ p. h (ap some p)))
]

hidden-returned :
    (author num s : ℕ) (posts : Posts)
    → s ≢ 0
    → hide_all
        (returned (some (record { author_id = author; sb_msg_id = some s; num = num })))
        posts
        s
      ≡ none
hidden-returned author num s posts h = rw (returned, column_id-ne_zero s h) (hide_self s posts)

has_id : (s : ℕ) (sb : Option ℕ) → (sb ≡ some s) ⊎ (sb ≢ some s)
has_id s none = inr (λ p. cc)
has_id s (some x) = elim (Bool-cases (x == s)) [
  | inl same ↦ inl (ap some ((==_iff x s).0 same))
  | inr other ↦ inr (λ p. ground (arith, other, some_inj p))
]

-- The table without one message, and the channel without the post that its row returns.
abbrev without : ℕ → World → World
without m w = record {
  table = erase m w.table;
  posts = hide_all (returned (find m w.table)) w.posts;
}

module _ (m : ℕ) (w : World) (v : IsConsistent w) where
  kept_row :
      (k : ℕ) (e : Entry) → find k (erase m w.table) ≡ some e → (m ≢ k) × (find k w.table ≡ some e)
  kept_row k e q = elim (Bool-cases (m == k)) [
    | inl same ↦ absurd (ground (arith, find-erase k m w.table))
    | inr other ↦ ((λ (p : m ≡ k). ground arith), ground (arith, find-erase k m w.table))
  ]

  row_kept :
      (k : ℕ) (e : Entry) → m ≢ k → find k w.table ≡ some e → find k (erase m w.table) ≡ some e
  row_kept k e ne q = ground (arith, find-erase k m w.table)

  -- What the channel shows of an id that the message does not have.
  kept_post :
      (s : ℕ)
      → ((d : Entry) → find m w.table ≡ some d → d.sb_msg_id ≢ some s)
      → (without m w).posts s ≡ w.posts s
  kept_post s apart = elim (Option-cases (find m w.table)) [
    | inl q ↦ rw q (ap (λ (p : Posts). p s) (no_hiding w.posts))
    | inr (d, q) ↦ rw q (hide-returned d.author_id d.num s d.sb_msg_id w.posts (apart d q))
  ]

  hidden_post :
      (s : ℕ) (d : Entry)
      → find m w.table ≡ some d
      → d.sb_msg_id ≡ some s
      → (without m w).posts s ≡ none
  hidden_post s d q h = rw q (
      subst
        (λ sb.
          hide_all
            (returned (some (record { author_id = d.author_id; sb_msg_id = sb; num = d.num })))
            w.posts s
          ≡ none)
        (sym h) (hidden-returned d.author_id d.num s w.posts nonzero))
    where
      nonzero : s ≢ 0
      nonzero = (subst (Shown w.posts d.num) h (v.shown m d q)).0

  another :
      (k s : ℕ) (e : Entry)
      → m ≢ k
      → find k w.table ≡ some e
      → e.sb_msg_id ≡ some s
      → (without m w).posts s ≡ w.posts s
  another k s e ne q es = kept_post s (λ d qd ds. ne (v.unique m k s d e qd q ds es))

  Shown-moved :
      (num : ℕ) (sb : Option ℕ)
      → ((s : ℕ) → sb ≡ some s → (without m w).posts s ≡ w.posts s)
      → Shown w.posts num sb
      → Shown (without m w).posts num sb
  Shown-moved num none h u = u
  Shown-moved num (some s) h u = (u.0, u.1, h s refl ∙ u.2)

  still_owned :
      (s n : ℕ)
      → (without m w).posts s ≡ some n
      → (k : ℕ) × (e : Entry) × (find k (erase m w.table) ≡ some e) × (e.sb_msg_id ≡ some s)
  still_owned s n h = elim (Option-cases (find m w.table)) [
    | inl absent ↦ of_another (λ d q ds. absurd (ground (arith, absent, q)))
    | inr (d, q) ↦ elim (has_id s d.sb_msg_id) [
      | inl own ↦ absurd (ground (arith, hidden_post s d q own, h))
      | inr other ↦
          of_another
            (λ d' q' ds. other (ap (λ (x : Entry). x.sb_msg_id) (some_inj (sym q ∙ q')) ∙ ds))
    ]
  ]
    where
      of_another :
          ((d : Entry) → find m w.table ≡ some d → d.sb_msg_id ≢ some s)
          → (k : ℕ) × (e : Entry) × (find k (erase m w.table) ≡ some e) × (e.sb_msg_id ≡ some s)
      of_another apart =
          let (k, e, q, es) = v.owned s n (sym (kept_post s apart) ∙ h) in
          (k, e, row_kept k e (λ mk. apart e (ap (λ i. find i w.table) mk ∙ q) es) q, es)

  without-IsConsistent : IsConsistent (without m w)
  without-IsConsistent = record {
    positive = λ k e q. v.positive k e (kept_row k e q).1;
    shown = λ k e q.
        let (ne, q') = kept_row k e q in
        Shown-moved e.num e.sb_msg_id (λ s es. another k s e ne q' es) (v.shown k e q');
    unique =
        λ j k s d e qj qk ds es. v.unique j k s d e (kept_row j d qj).1 (kept_row k e qk).1 ds es;
    owned = still_owned;
  }

hide_all-append :
    (a b : List ℕ) (posts : Posts) → hide_all (a ++ b) posts ≡ hide_all b (hide_all a posts)
unfolding hide_all
hide_all-append [] b posts = refl
hide_all-append (s ∷ a) b posts = hide_all-append a b (hide s posts)

-- The table and the channel without the messages.
cleared : List ℕ → World → World
cleared ms w = record {
  table = (delete_all ms w.table).0;
  posts = hide_all (delete_all ms w.table).1 w.posts;
}

cleared-IsConsistent : (ms : List ℕ) (w : World) → IsConsistent w → IsConsistent (cleared ms w)
unfolding cleared delete_all hide_all
cleared-IsConsistent [] w v = v
cleared-IsConsistent (m ∷ ms) w v =
    subst
      (λ posts. IsConsistent (record { table = (delete_all (m ∷ ms) w.table).0; posts = posts }))
      (sym
        (hide_all-append (returned (find m w.table)) (delete_all ms (erase m w.table)).1 w.posts))
      (cleared-IsConsistent ms (without m w) (without-IsConsistent m w v))

pub find-delete_all :
    (ms : List ℕ) (k : ℕ) (t : Starboard)
    → find k (delete_all ms t).0 ≡ (if contains ms k then none else find k t)
unfolding delete_all
find-delete_all [] k t = refl
find-delete_all (m ∷ ms) k t = find-delete_all ms k (erase m t) ∙ ground (arith, find-erase k m t)

-- If Discord deletes the posts, the deletion of messages keeps the channel #starboard in agreement with
-- the table, forgets exactly the deleted messages, and ends without an exception.
pub message_delete-IsConsistent :
    (d : Replies) (ms : List ℕ) (w : World)
    → d.deleted ≡ true
    → IsConsistent w
    → IsConsistent (message_delete d ms w).0
      × ((k : ℕ)
          → find k (message_delete d ms w).0.table
            ≡ (if contains ms k then none else find k w.table))
      × ((message_delete d ms w).1 ≡ true)
unfolding message_delete
message_delete-IsConsistent d ms w accepted v =
    rw accepted
      (unfold cleared in cleared-IsConsistent ms w v, (λ k. find-delete_all ms k w.table), refl)
