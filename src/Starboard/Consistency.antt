-- ===== src/Starboard/Consistency.antt =====
-- The channel #starboard agrees with the table, and the handlers keep it so.
use greek_bot.Prelude.{
  ℕ, ◌≤◌, ◌<◌, ◌≡◌, ◌≢◌, refl, sym, ap, ◌∙◌, Option, none, some, ◌==◌, ◌⊎◌, inl, inr, Bool-cases,
  ==_iff, ==_refl, arith, subst,
}
use greek_bot.Prelude.Table.{find, put, find-put}
use greek_bot.Starboard.Table.{Entry}
use greek_bot.Starboard.Reactions.{World, Posts}

-- An entry is on display exactly if it has enough reactions, and then with their number.
abbrev pub Shown : Posts → ℕ → Option ℕ → Type 0
Shown posts num none = num < 5
Shown posts num (some s) = (s ≢ 0) × (5 ≤ num) × (posts s ≡ some num)

pub record IsConsistent (w : World) : Type 0 where
  pub positive : (k : ℕ) (e : Entry) → find k w.table ≡ some e → 1 ≤ e.num
  pub shown : (k : ℕ) (e : Entry) → find k w.table ≡ some e → Shown w.posts e.num e.sb_msg_id
  pub unique :
      (j k s : ℕ) (d e : Entry)
      → find j w.table ≡ some d
      → find k w.table ≡ some e
      → d.sb_msg_id ≡ some s
      → e.sb_msg_id ≡ some s
      → j ≡ k
  pub owned :
      (s n : ℕ)
      → w.posts s ≡ some n
      → (k : ℕ) × (e : Entry) × (find k w.table ≡ some e) × (e.sb_msg_id ≡ some s)

-- The row of another message keeps its post, and the new row has another post.
abbrev pub Apart : ℕ → Entry → Posts → World → Type 0
Apart m new posts w =
    (j s : ℕ) (d : Entry)
    → m ≢ j
    → find j w.table ≡ some d
    → d.sb_msg_id ≡ some s
    → (posts s ≡ w.posts s) × (new.sb_msg_id ≢ some s)

-- A post belongs to the new row, or was there and belongs to the row of another message.
abbrev pub Accounted : ℕ → Entry → Posts → World → Type 0
Accounted m new posts w =
    (s n : ℕ)
    → posts s ≡ some n
    → (new.sb_msg_id ≡ some s)
      ⊎ ((j : ℕ) × (d : Entry) × (m ≢ j) × (find j w.table ≡ some d) × (d.sb_msg_id ≡ some s))

module _ (m : ℕ) (new : Entry) (posts : Posts) (w : World) where
  abbrev pub replaced : World
  replaced = record { table = put m new w.table; posts = posts }

  find_self : find m (put m new w.table) ≡ some new
  find_self = rw (find-put m m new w.table, ==_refl m) refl

  find_other : (j : ℕ) → m ≢ j → find j (put m new w.table) ≡ find j w.table
  find_other j h = rw (find-put j m new w.table) (ground arith)

  -- A row of the new table is the new row or an old row of another message.
  row_cases :
      (k : ℕ) (e : Entry)
      → find k (put m new w.table) ≡ some e
      → ((m ≡ k) × (new ≡ e)) ⊎ ((m ≢ k) × (find k w.table ≡ some e))
  row_cases k e h = elim (Bool-cases (m == k)) [
    | inl same ↦ inl ((==_iff m k).0 same, ground (arith, find-put k m new w.table))
    | inr other ↦ inr ((λ (p : m ≡ k). ground arith), ground (arith, find-put k m new w.table))
  ]

  Shown-moved :
      (num : ℕ) (sb : Option ℕ)
      → ((s : ℕ) → sb ≡ some s → posts s ≡ w.posts s)
      → Shown w.posts num sb
      → Shown posts num sb
  Shown-moved num none h v = v
  Shown-moved num (some s) h v = (v.0, v.1, h s refl ∙ v.2)

  pub put-IsConsistent :
      IsConsistent w
      → 1 ≤ new.num
      → Shown posts new.num new.sb_msg_id
      → Apart m new posts w
      → Accounted m new posts w
      → IsConsistent replaced
  put-IsConsistent v pos sh apart acc = record {
    positive = λ k e h. elim (row_cases k e h) [
      | inl (_, p) ↦ subst (λ (x : Entry). 1 ≤ x.num) p pos
      | inr (_, q) ↦ v.positive k e q
    ];
    shown = λ k e h. elim (row_cases k e h) [
      | inl (_, p) ↦ subst (λ (x : Entry). Shown posts x.num x.sb_msg_id) p sh
      | inr (ne, q) ↦
          Shown-moved e.num e.sb_msg_id (λ s es. (apart k s e ne q es).0) (v.shown k e q)
    ];
    unique = λ j k s d e hj hk ds es. elim (row_cases j d hj) [
      | inl (mj, pd) ↦ elim (row_cases k e hk) [
        | inl (mk, _) ↦ sym mj ∙ mk
        | inr (ne, q) ↦ absurd ((apart k s e ne q es).1 (ap (λ (x : Entry). x.sb_msg_id) pd ∙ ds))
      ]
      | inr (nd, qd) ↦ elim (row_cases k e hk) [
        | inl (_, pe) ↦ absurd ((apart j s d nd qd ds).1 (ap (λ (x : Entry). x.sb_msg_id) pe ∙ es))
        | inr (_, q) ↦ v.unique j k s d e qd q ds es
      ]
    ];
    owned = λ s n h. elim (acc s n h) [
      | inl own ↦ (m, new, find_self, own)
      | inr (j, d, ne, q, ds) ↦ (j, d, find_other j ne ∙ q, ds)
    ];
  }
