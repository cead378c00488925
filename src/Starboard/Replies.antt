-- ===== src/Starboard/Replies.antt =====
-- The number of embeds in a reply to `/starboard`.
use greek_bot.Prelude.{
  ℕ, suc, ◌≤◌, ◌≡◌, refl, ap, Bool, List, [], ◌∷◌, Option, none, some, ◌==◌, length, length-take,
  Bool-cases, inl, inr, arith,
}
use greek_bot.Guild.Cache.{RoleCache}
use greek_bot.Starboard.Table.{Starboard}
use greek_bot.Starboard.Reactions.{reaction_threshold}
use greek_bot.Prelude.Ranks.{Ranked, number_from, sort_by}
use greek_bot.Starboard.Ranking.{Standing, is_before, tally, get_top10}
use greek_bot.Starboard.Commands.{
  authors, Selected, target, top_embed, top_reply, not_for_bots, not_for_system, no_data,
  with_embeds, Reply, process_rank, process_top10, top_embeds, process_starboard_leaderboard,
  with_embeds, top_embed,
}

-- Discord refuses a message with more than 10 embeds.
pub IsSendable : Reply → Type 0
IsSendable not_for_bots = Unit
IsSendable not_for_system = Unit
IsSendable no_data = Unit
IsSendable (with_embeds es) = (1 ≤ length es) × (length es ≤ 10)

IsSendableReply : Option Reply → Type 0
IsSendableReply none = Unit
IsSendableReply (some reply) = IsSendable reply

module _ (members : List ℕ → List (ℕ × List ℕ)) (exists : ℕ → Bool) where
  length-top_embeds :
      (found : List (ℕ × List ℕ)) (rs : List (Ranked Standing)) (c : RoleCache)
      → length (top_embeds members exists found rs c).1 ≡ length rs
  unfolding top_embeds
  length-top_embeds found [] c = refl
  length-top_embeds found (r ∷ rs) c =
      ap suc (length-top_embeds found rs (top_embed members exists found r c).0)

  process_rank-IsSendable :
      (s : Selected) (t : Starboard) (c : RoleCache) → IsSendable (process_rank s t c).1
  unfolding process_rank IsSendable
  process_rank-IsSendable s t c = elim (Bool-cases s.is_bot) [
    | inl bot ↦ rw bot tt
    | inr user ↦ elim (Bool-cases s.is_system) [
      | inl system ↦ rw (user, system) tt
      | inr regular ↦ rw (user, regular) (omega arith, omega arith)
    ]
  ]

  top_reply-IsSendable :
      (rs : List (Ranked Standing)) (c : RoleCache)
      → length rs ≤ 10
      → IsSendable (top_reply members exists rs c).1
  unfolding IsSendable
  top_reply-IsSendable [] c le = tt
  top_reply-IsSendable (r ∷ rs) c le =
      let embeds = top_embeds members exists (members (authors (r ∷ rs))) (r ∷ rs) c in
      let same = length-top_embeds (members (authors (r ∷ rs))) (r ∷ rs) c in
      (omega (arith, same), omega (arith, same, le))

  process_top10-IsSendable :
      (t : Starboard) (c : RoleCache) → IsSendable (process_top10 members exists t c).1
  unfolding process_top10 get_top10
  process_top10-IsSendable t c = top_reply-IsSendable (get_top10 reaction_threshold t) c (
      omega
        (arith, length-take 10 (number_from 1 (sort_by is_before (tally reaction_threshold t)))))

  -- A reply to `/starboard` with embeds has at least one of them and at most 10, also if many of the best have
  -- left the guild.
  process_starboard_leaderboard-IsSendable :
      (hash : ℕ) (invoker : Selected) (option : Option Selected) (t : Starboard) (c : RoleCache)
      → IsSendableReply (process_starboard_leaderboard members exists hash invoker option t c).1
  unfolding process_starboard_leaderboard IsSendableReply
  process_starboard_leaderboard-IsSendable hash invoker option t c =
      elim (Bool-cases (hash == 2289690853)) [
        | inl rank ↦ rw rank (process_rank-IsSendable (target invoker option) t c)
        | inr other ↦ elim (Bool-cases (hash == 490735881)) [
          | inl top ↦ rw (other, top) (process_top10-IsSendable t c)
          | inr unknown ↦ rw (other, unknown) tt
        ]
      ]
