-- ===== src/Starboard/Handlers.antt =====
-- The handlers of GreekBot/GreekBot_Starboard.cpp keep the channel and the table in agreement, as
-- long as Discord carries out what they ask for.
use greek_bot.Prelude.{
  ℕ, ◌+◌, ◌≤◌, ◌≡◌, ◌≢◌, refl, sym, ap, ◌∙◌, Bool, true, false, Option, none, some, ◌==◌, ltb, inl,
  inr, Bool-cases, Option-cases, ==_refl, arith, subst, ◌||◌, ltb→lt, some_inj, not, contains,
}
use greek_bot.Prelude.Table.{find, put, any, find-put, put-put, any-put}
use greek_bot.Starboard.Table.{
  Starboard, Entry, column_id, is_taken, register_message, register_reaction,
}
use greek_bot.Starboard.Reactions.{
  World, Replies, Emoji, process_reaction, publish, count_reaction, reaction_add, is_holy,
  excluded_channels,
}
use greek_bot.Starboard.Consistency.{IsConsistent, Shown}
use greek_bot.Starboard.Steps.{
  Unposted-IsConsistent, edited-IsConsistent, published-IsConsistent, Unposted,
}

-- Discord does all that is asked: the message reacted to was written by `author`, and a new message
-- gets the id `s`.
abbrev pub all_well : ℕ → ℕ → Replies
all_well author s = record {
  fetched = some author;
  member_found = true;
  created = some s;
  edited = true;
  deleted = true;
}

or_true : (b : Bool) → (b || true) ≡ true
or_true true = refl
or_true false = refl

pub not-ltb : (a b : ℕ) → b ≤ a → ltb a b ≡ false
not-ltb a b h = ground arith

registered :
    (message s : ℕ) (e : Entry) (t : Starboard)
    → find message t ≡ some e
    → any (is_taken message s) t ≡ false
    → register_message message s t ≡ some (put message (record e { sb_msg_id = some s }) t)
unfolding register_message
registered message s e t q free = rw (q, register_message, free) refl

pub column_id-none : column_id none ≡ none
unfolding column_id
column_id-none = refl

pub column_id-some : (p : ℕ) → p ≢ 0 → column_id (some p) ≡ some p
unfolding column_id
column_id-some p h = ground arith

module _ (author s message : ℕ) (w : World) (s0 : s ≢ 0)
    (fresh : any (is_taken message s) w.table ≡ false) (v : IsConsistent w) where
  abbrev replies : Replies
  replies = all_well author s

  find-put_self : (e : Entry) → find message (put message e w.table) ≡ some e
  find-put_self e = rw (find-put message message e w.table, ==_refl message) refl

  register_message_fresh :
      (e : Entry)
      → register_message message s (put message e w.table)
        ≡ some (put message (record e { sb_msg_id = some s }) w.table)
  register_message_fresh e =
      registered message s e (put message e w.table) (find-put_self e)
        (any-put (is_taken message s) message e w.table fresh (ground arith))
      ∙ ap some (put-put message (record e { sb_msg_id = some s }) e w.table)

  -- No post stood there before: one appears if the new number is high enough.
  raise-Unposted :
      (e : Entry) (loaded : Bool)
      → Unposted message w
      → e.sb_msg_id ≡ none
      → 1 ≤ e.num
      → IsConsistent
          (process_reaction replies loaded message
            (record { starboard_message_id = none; num_reactions = e.num })
            (record w { table = put message e w.table })).0
  unfolding process_reaction
  raise-Unposted e loaded un en pos = elim (Bool-cases (ltb e.num 5)) [
    | inl few ↦ rw few (Unposted-IsConsistent message w v e un en (ltb→lt e.num 5 few) pos)
    | inr enough ↦
        rw (enough, or_true loaded, register_message_fresh e, publish)
          (published-IsConsistent message w v (record e { sb_msg_id = some s }) s un fresh s0 refl
            (ground arith))
  ]

  -- A post stood there, and is edited.
  raise_posted :
      (old e : Entry) (p : ℕ) (loaded : Bool)
      → find message w.table ≡ some old
      → old.sb_msg_id ≡ some p
      → e.sb_msg_id ≡ some p
      → 5 ≤ e.num
      → IsConsistent
          (process_reaction replies loaded message
            (record { starboard_message_id = some p; num_reactions = e.num })
            (record w { table = put message e w.table })).0
  unfolding process_reaction
  raise_posted old e p loaded q os es le =
      rw (not-ltb e.num 5 le) (edited-IsConsistent message w v old e p q os es le)

  -- What `process_reaction` does after the row of the message got a new number.
  abbrev processed : Entry → Bool → Option ℕ → World
  processed e loaded id =
      (process_reaction replies loaded message
        (record { starboard_message_id = id; num_reactions = e.num })
        (record w { table = put message e w.table })).0

  raised-IsConsistent :
      (old : Entry) (loaded : Bool)
      → find message w.table ≡ some old
      → IsConsistent (processed (record old { num = old.num + 1 }) loaded (column_id old.sb_msg_id))
  raised-IsConsistent old loaded q = elim (Option-cases old.sb_msg_id) [
    | inl unposted ↦
        subst (λ id. IsConsistent (processed (record old { num = old.num + 1 }) loaded id))
          (sym (ap column_id unposted ∙ column_id-none))
          (raise-Unposted (record old { num = old.num + 1 }) loaded
            (λ p d qd ds.
              cc (sym unposted ∙ ap (λ (x : Entry). x.sb_msg_id) (some_inj (sym q ∙ qd)) ∙ ds))
            unposted (omega arith))
    | inr (p, posted) ↦
        let (p0, enough, _) = subst (Shown w.posts old.num) posted (v.shown message old q) in
        subst (λ id. IsConsistent (processed (record old { num = old.num + 1 }) loaded id))
          (sym (ap column_id posted ∙ column_id-some p p0))
          (raise_posted old (record old { num = old.num + 1 }) p loaded q posted posted
            (omega arith))
  ]

  -- A counted reaction.
  count_reaction-IsConsistent :
      (bot user author : ℕ) (loaded : Bool)
      → IsConsistent (count_reaction replies bot user message author loaded w).0
  unfolding count_reaction register_reaction
  count_reaction-IsConsistent bot user author loaded =
      elim (Bool-cases ((author == user) || (author == bot))) [
        | inl ignored ↦ rw ignored v
        | inr counted ↦ rw counted (elim (Option-cases (find message w.table)) [
          | inl new ↦
              rw (new, register_reaction)
                (unfold process_reaction in
                  (Unposted-IsConsistent message w v _ (λ p d qd ds. cc (sym new ∙ qd)) refl
                    (omega arith) (omega arith)))
          | inr (old, q) ↦ rw (q, register_reaction) (raised-IsConsistent old loaded q)
        ])
      ]

  -- If Discord carries out what the handler asks for and gives a new message an id that is not 0 and
  -- that no other message's row has, `process_starboard_reaction_add` keeps the channel in agreement
  -- with the table: a message is on display exactly if it has at least 5 reactions, with their
  -- number, and nothing else is.
  pub reaction_add-IsConsistent :
      (bot user channel : ℕ) (known : Option ℕ) (emoji : Emoji)
      → IsConsistent (reaction_add replies bot user channel message known emoji w).0
  unfolding reaction_add
  reaction_add-IsConsistent bot user channel known emoji =
      elim (Bool-cases (not (is_holy emoji) || contains excluded_channels channel)) [
        | inl ignored ↦ rw ignored v
        | inr counted ↦ rw counted (elim (Option-cases known) [
          | inl unknown ↦ rw unknown (count_reaction-IsConsistent bot user author true)
          | inr (a, k) ↦ rw k (count_reaction-IsConsistent bot user a false)
        ])
      ]
