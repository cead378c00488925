-- ===== src/Starboard/Commands.antt =====
-- `/starboard rank` and `/starboard top10`: `process_starboard_leaderboard` of GreekBot/GreekBot_Starboard.cpp.
use greek_bot.Prelude.{ℕ, Bool, true, false, List, [], ◌∷◌, Option, none, some, ◌==◌, if◌then◌else◌}
use greek_bot.Prelude.Table.{find}
use greek_bot.Guild.Cache.{RoleCache, get_lmg_member_color}
use greek_bot.Prelude.Ranks.{Ranked}
use greek_bot.Starboard.Table.{Starboard}
use greek_bot.Starboard.Reactions.{reaction_threshold}
use greek_bot.Starboard.Ranking.{Standing, get_top10, get_rank}

-- The user of an option or of the interaction, with the roles of the member.
pub record Selected : Type 0 where
  pub user : ℕ
  pub is_bot : Bool
  pub is_system : Bool
  pub member : Option (List ℕ)

pub data Medal : Type 0 where
  gold : Medal
  silver : Medal
  bronze : Medal
  other_medal : Medal

abbrev pub medal_of : ℕ → Medal
medal_of rank =
    if rank == 1
    then gold
    else if rank == 2
    then silver
    else if rank == 3
    then bronze
    else other_medal

-- `no_member_embed` has no user if the account is deleted; `bored_embed` is of a user without messages.
pub data Embed : Type 0 where
  rank_embed : ℕ → Medal → Ranked Standing → ℕ → Embed
  no_member_embed : Option ℕ → Bool → Embed
  bored_embed : ℕ → ℕ → Embed

unfoldable pub make_embed : ℕ → Ranked Standing → ℕ → Embed
make_embed user r color = rank_embed user (medal_of r.rank) r color

pub data Reply : Type 0 where
  not_for_bots : Reply
  not_for_system : Reply
  no_data : Reply
  with_embeds : List Embed → Reply

-- The embed of `/starboard rank`, after the entry is retrieved.
unfoldable pub rank_reply :
    ℕ → Option (List ℕ) → Option (Ranked Standing) → RoleCache → RoleCache × Embed
unfolding get_lmg_member_color make_embed
rank_reply user none none c = (c, no_member_embed (some user) false)
rank_reply user none (some r) c = (c, no_member_embed (some user) true)
rank_reply user (some roles) entry c =
    let (c', color) = get_lmg_member_color roles c in
    (c', elim entry [ none ↦ bored_embed user color | some r ↦ make_embed user r color ])

unfoldable pub process_rank : Selected → Starboard → RoleCache → RoleCache × Reply
unfolding get_rank rank_reply
process_rank s t c =
    let (c', embed) = rank_reply s.user s.member (get_rank s.user reaction_threshold t) c in
    if s.is_bot
    then (c, not_for_bots)
    else if s.is_system
    then (c, not_for_system)
    else (c', with_embeds (embed ∷ []))

abbrev pub target : Selected → Option Selected → Selected
target invoker none = invoker
target invoker (some selected) = selected

abbrev pub authors : List (Ranked Standing) → List ℕ
authors [] = []
authors (r ∷ rs) = r.row.author ∷ authors rs

module _ (members : List ℕ → List (ℕ × List ℕ)) (exists : ℕ → Bool) where
  -- The embed of an entry, for the members found; whether the account exists is asked for the others.
  unfoldable pub top_embed : List (ℕ × List ℕ) → Ranked Standing → RoleCache → RoleCache × Embed
  unfolding get_lmg_member_color make_embed
  top_embed found r c = elim (find r.row.author found) [
    | some roles ↦
        let (c', color) = get_lmg_member_color roles c in (c', make_embed r.row.author r color)
    | none ↦
        if exists r.row.author
        then (c, no_member_embed (some r.row.author) true)
        else (c, no_member_embed none true)
  ]

  unfoldable pub top_embeds :
      List (ℕ × List ℕ) → List (Ranked Standing) → RoleCache → RoleCache × List Embed
  unfolding top_embed
  top_embeds found [] c = (c, [])
  top_embeds found (r ∷ rs) c =
      let (c', embed) = top_embed found r c in
      let (c'', embeds) = top_embeds found rs c' in (c'', embed ∷ embeds)

  abbrev pub top_reply : List (Ranked Standing) → RoleCache → RoleCache × Reply
  top_reply [] c = (c, no_data)
  top_reply (r ∷ rs) c =
      let (c', embeds) = top_embeds (members (authors (r ∷ rs))) (r ∷ rs) c in
      (c', with_embeds embeds)

  unfoldable pub process_top10 : Starboard → RoleCache → RoleCache × Reply
  unfolding get_top10 top_embeds
  process_top10 t c = top_reply (get_top10 reaction_threshold t) c

  -- `hash` is the CRC32 of the subcommand's name, and `none` the exception for another one.
  unfoldable pub process_starboard_leaderboard :
      ℕ → Selected → Option Selected → Starboard → RoleCache → RoleCache × Option Reply
  unfolding process_rank process_top10
  process_starboard_leaderboard hash invoker option t c =
      let (c', reply) = process_rank (target invoker option) t c in
      let (c'', top) = process_top10 t c in
      if hash == 2289690853
      then (c', some reply)
      else if hash == 490735881
      then (c'', some top)
      else (c, none)
