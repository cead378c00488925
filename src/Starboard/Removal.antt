-- ===== src/Starboard/Removal.antt =====
-- Taking a reaction away: `process_starboard_reaction_remove` of GreekBot/GreekBot_Starboard.cpp.
use greek_bot.Prelude.{
  ℕ, ◌-◌, ◌≤◌, ◌<◌, ◌≡◌, refl, sym, ap, ◌∙◌, true, false, not, Option, none, some, ◌==◌, ltb, inl,
  inr, Bool-cases, Option-cases, ==_refl, arith, subst, ◌||◌, ltb→lt, some_inj, contains,
}
use greek_bot.Prelude.Table.{find, put, find-put, put-put}
use greek_bot.Starboard.Table.{
  Starboard, Entry, column_id, get_message_author, remove_message, remove_reaction,
}
use greek_bot.Starboard.Reactions.{
  World, Emoji, is_holy, process_reaction, put_up, take_down, uncount_reaction, reaction_remove,
  excluded_channels,
}
use greek_bot.Starboard.Consistency.{IsConsistent, Shown}
use greek_bot.Starboard.Handlers.{all_well, column_id-none, column_id-some}
use greek_bot.Starboard.Steps.{Unposted-IsConsistent, edited-IsConsistent, hidden-IsConsistent}

removed :
    (message : ℕ) (e : Entry) (t : Starboard)
    → find message t ≡ some e
    → remove_message message t ≡ put message (record e { sb_msg_id = none }) t
unfolding remove_message
removed message e t q = rw (q, remove_message) refl

lt-ltb : (a b : ℕ) → a < b → ltb a b ≡ true
lt-ltb a b h = ground arith

module _ (author s message : ℕ) (w : World) (v : IsConsistent w) where
  find-put_self : (e : Entry) → find message (put message e w.table) ≡ some e
  find-put_self e = rw (find-put message message e w.table, ==_refl message) refl

  remove_message-put :
      (e : Entry)
      → remove_message message (put message e w.table)
        ≡ put message (record e { sb_msg_id = none }) w.table
  remove_message-put e =
      removed message e (put message e w.table) (find-put_self e)
      ∙ put-put message (record e { sb_msg_id = none }) e w.table

  -- What `process_reaction` does after the row of the message got the number `n`.
  abbrev processed : Entry → ℕ → Option ℕ → World
  processed old n id =
      (process_reaction (all_well author s) false message
        (record { starboard_message_id = id; num_reactions = n })
        (record w { table = put message (record old { num = n }) w.table })).0

  lower_posted :
      (old : Entry) (n p : ℕ)
      → find message w.table ≡ some old
      → old.sb_msg_id ≡ some p
      → 1 ≤ n
      → IsConsistent
          (process_reaction
            (all_well author s)
            false
            message
            (record { starboard_message_id = some p; num_reactions = n })
            (record w { table = put message (record old { num = n }) w.table })).0
  unfolding process_reaction take_down put_up
  lower_posted old n p q os pos = elim (Bool-cases (ltb n 5)) [
    | inl few ↦
        rw (few, remove_message-put (record old { num = n }))
          (hidden-IsConsistent message w v old (record old { num = n; sb_msg_id = none }) p q os
            refl (ltb→lt n 5 few) pos)
    | inr enough ↦
        rw enough
          (edited-IsConsistent message w v old (record old { num = n }) p q os os (ground arith))
  ]

  lower_unposted :
      (old : Entry) (n : ℕ)
      → find message w.table ≡ some old
      → old.sb_msg_id ≡ none
      → 1 ≤ n
      → n < 5
      → IsConsistent
          (process_reaction
            (all_well author s)
            false
            message
            (record { starboard_message_id = none; num_reactions = n })
            (record w { table = put message (record old { num = n }) w.table })).0
  unfolding process_reaction take_down
  lower_unposted old n q os pos few = rw (lt-ltb n 5 few) (
      Unposted-IsConsistent message w v (record old { num = n })
        (λ p d qd ds. cc (sym os ∙ ap (λ (x : Entry). x.sb_msg_id) (some_inj (sym q ∙ qd)) ∙ ds)) os
        few pos)

  lowered-IsConsistent :
      (old : Entry)
      → find message w.table ≡ some old
      → (old.num == 1) ≡ false
      → IsConsistent (processed old (old.num - 1) (column_id old.sb_msg_id))
  lowered-IsConsistent old q more = elim (Option-cases old.sb_msg_id) [
    | inl unposted ↦
        let pos = v.positive message old q in
        let few = subst (Shown w.posts old.num) unposted (v.shown message old q) in
        subst (λ id. IsConsistent (processed old (old.num - 1) id))
          (sym (ap column_id unposted ∙ column_id-none))
          (lower_unposted old (old.num - 1) q unposted (ground arith) (omega arith))
    | inr (p, posted) ↦
        let (p0, enough, _) = subst (Shown w.posts old.num) posted (v.shown message old q) in
        subst (λ id. IsConsistent (processed old (old.num - 1) id))
          (sym (ap column_id posted ∙ column_id-some p p0))
          (lower_posted old (old.num - 1) p q posted (omega arith))
  ]

  uncount_reaction-IsConsistent : IsConsistent (uncount_reaction (all_well author s) message w).0
  unfolding uncount_reaction remove_reaction
  uncount_reaction-IsConsistent = elim (Option-cases (find message w.table)) [
    | inl new ↦ rw (uncount_reaction, new, remove_reaction) (unfold process_reaction take_down in v)
    | inr (old, q) ↦ elim (Bool-cases (old.num == 1)) [
      | inl last ↦ rw (uncount_reaction, q, remove_reaction, last) v
      | inr more ↦ rw (uncount_reaction, q, remove_reaction, more) (lowered-IsConsistent old q more)
    ]
  ]

  -- If Discord carries out what the handler asks for, `process_starboard_reaction_remove` keeps the
  -- channel in agreement with the table: a message that falls below 5 reactions is taken down.
  pub reaction_remove-IsConsistent :
      (bot user channel : ℕ) (emoji : Emoji)
      → IsConsistent (reaction_remove (all_well author s) bot user channel message emoji w).0
  unfolding reaction_remove
  reaction_remove-IsConsistent bot user channel emoji =
      elim (Bool-cases (not (is_holy emoji) || contains excluded_channels channel)) [
        | inl ignored ↦ rw ignored v
        | inr counted ↦ rw counted (elim (Option-cases (get_message_author message w.table)) [
          | inl unknown ↦ rw unknown v
          | inr (a, k) ↦ elim (Bool-cases ((a == user) || (a == bot))) [
            | inl own ↦ rw (k, own) v
            | inr other ↦ rw (k, other) uncount_reaction-IsConsistent
          ]
        ])
      ]
