-- ===== src/Leaderboard/Commands.antt =====
-- `/rank` and `/top`: `process_rank` and `process_top` of GreekBot/GreekBot_Leaderboard.cpp.
use greek_bot.Prelude.{ℕ, ◌-◌, Bool, true, false, List, [], ◌∷◌, Option, none, some, if◌then◌else◌}
use greek_bot.Prelude.Table.{find}
use greek_bot.Prelude.Ranks.{Ranked}
use greek_bot.Guild.Cache.{RoleCache, get_lmg_member_color}
use greek_bot.Starboard.Commands.{Selected, target, Medal, medal_of}
use greek_bot.Leaderboard.Table.{Row}
use greek_bot.Leaderboard.Levels.{calculate_level_info}
use greek_bot.Leaderboard.Ranking.{get_entry_by_user, get_top10_entries}

-- The fields of the embed of an entry.
pub record Progress : Type 0 where
  pub medal : Medal
  pub rank : ℕ
  pub level : ℕ
  pub gained : ℕ
  pub needed : ℕ
  pub xp : ℕ
  pub num_msg : ℕ

pub data RankEmbed : Type 0 where
  progress_embed : ℕ → ℕ → Progress → RankEmbed
  no_xp_embed : ℕ → ℕ → RankEmbed
  not_member_embed : Option ℕ → Bool → RankEmbed

abbrev progress_of : Ranked Row → Progress
progress_of r =
    let info = calculate_level_info r.row.xp in
    record {
      medal = medal_of r.rank;
      rank = r.rank;
      level = info.level;
      gained = r.row.xp - info.level_xp;
      needed = info.next_level_xp - info.level_xp;
      xp = r.row.xp;
      num_msg = r.row.num_msg;
    }

unfoldable pub make_embed : ℕ → ℕ → Option (Ranked Row) → RankEmbed
unfolding calculate_level_info
make_embed user color none = no_xp_embed user color
make_embed user color (some r) = progress_embed user color (progress_of r)

pub data RankReply : Type 0 where
  bots_not_ranked : RankReply
  system_not_ranked : RankReply
  start_talking : RankReply
  ranked : List RankEmbed → RankReply

-- After the entry is retrieved.
abbrev entry_reply : ℕ → Option (List ℕ) → Option (Ranked Row) → RoleCache → RoleCache × RankEmbed
entry_reply user none none c = (c, not_member_embed (some user) false)
entry_reply user none (some r) c = (c, not_member_embed (some user) true)
entry_reply user (some roles) entry c =
    let (c', color) = get_lmg_member_color roles c in (c', make_embed user color entry)

abbrev rank_selected : Selected → List Row → RoleCache → RoleCache × RankReply
rank_selected s t c =
    let (c', embed) = entry_reply s.user s.member (get_entry_by_user s.user t) c in
    if s.is_bot
    then (c, bots_not_ranked)
    else if s.is_system
    then (c, system_not_ranked)
    else (c', ranked (embed ∷ []))

unfoldable pub process_rank :
    Selected → Option Selected → List Row → RoleCache → RoleCache × RankReply
unfolding get_entry_by_user get_lmg_member_color make_embed
process_rank invoker option t c = rank_selected (target invoker option) t c

abbrev users : List (Ranked Row) → List ℕ
users [] = []
users (r ∷ rs) = r.row.id ∷ users rs

module _ (members : List ℕ → List (ℕ × List ℕ)) (exists : ℕ → Bool) where
  abbrev entry_embed : List (ℕ × List ℕ) → Ranked Row → RoleCache → RoleCache × RankEmbed
  entry_embed found r c = elim (find r.row.id found) [
    | some roles ↦
        let (c', color) = get_lmg_member_color roles c in (c', make_embed r.row.id color (some r))
    | none ↦
        if exists r.row.id
        then (c, not_member_embed (some r.row.id) true)
        else (c, not_member_embed none true)
  ]

  unfoldable pub entry_embeds :
      List (ℕ × List ℕ) → List (Ranked Row) → RoleCache → RoleCache × List RankEmbed
  unfolding get_lmg_member_color make_embed find
  entry_embeds found [] c = (c, [])
  entry_embeds found (r ∷ rs) c =
      let (c', embed) = entry_embed found r c in
      let (c'', embeds) = entry_embeds found rs c' in (c'', embed ∷ embeds)

  abbrev best_reply : List (Ranked Row) → RoleCache → RoleCache × RankReply
  best_reply [] c = (c, start_talking)
  best_reply (r ∷ rs) c =
      let (c', embeds) = entry_embeds (members (users (r ∷ rs))) (r ∷ rs) c in (c', ranked embeds)

  unfoldable pub process_top : List Row → RoleCache → RoleCache × RankReply
  unfolding get_top10_entries entry_embeds
  process_top t c = best_reply (get_top10_entries t) c
