-- ===== src/Starboard/Examples.antt =====
-- The starboard on concrete reactions.
use greek_bot.Prelude.{
  ℕ, ◌≡◌, refl, arith, none, some, false, codes, [], ◌∷◌, if◌then◌else◌, contains, true,
}
use greek_bot.Prelude.Table.{find, put, any}
use greek_bot.LearningGreek.{emoji_id_holy}
use greek_bot.Starboard.Reactions.{
  World, Emoji, is_holy, reaction_add, reaction_remove, message_delete,
}
use greek_bot.Starboard.Table.{register_reaction, register_message}
use greek_bot.Starboard.Consistency.{IsConsistent}
use greek_bot.Starboard.Steps.{Unposted-IsConsistent}
use greek_bot.Starboard.Handlers.{all_well, reaction_add-IsConsistent}
use greek_bot.Starboard.Removal.{reaction_remove-IsConsistent}
use greek_bot.Starboard.Counts.{row}
use greek_bot.Guild.Colors.{no_roles}
use greek_bot.Starboard.Commands.{Selected, process_rank, with_embeds, bored_embed}
use greek_bot.Starboard.Deletion.{message_delete-IsConsistent}
use greek_bot.Starboard.Table.{Starboard}
use greek_bot.Prelude.Ranks.{sort_by, insert_by, number_from, find_ranked, within, IsOrdered}
use greek_bot.Starboard.Ranking.{get_rank, get_top10, tally, add_entry, is_before, is_author}
use greek_bot.Starboard.Standings.{totals, counted_of}
use greek_bot.Starboard.Ranks.{standing_in, get_rank_lem}

abbrev holy : Emoji
holy = record { id = emoji_id_holy; name = codes "Holy"; animated = false }

abbrev nothing : World
nothing = record { table = []; posts = λ s. none }

nothing-IsConsistent : IsConsistent nothing
unfolding find
nothing-IsConsistent = record {
  positive = λ k e h. ground arith;
  shown = λ k e h. absurd (ground arith);
  unique = λ j k s d e h h' ds es. ground arith;
  owned = λ s n h. absurd (ground arith);
}

-- The message 7 of user 3 with `n` reactions.
abbrev with_reactions : ℕ → World
with_reactions n = record nothing {
  table = put 7 (record { author_id = 3; sb_msg_id = none; num = n }) [];
}

four-IsConsistent : IsConsistent (with_reactions 4)
unfolding find
four-IsConsistent =
    Unposted-IsConsistent 7 nothing nothing-IsConsistent
      (record { author_id = 3; sb_msg_id = none; num = 4 }) (λ s d h e. ground arith) refl
      (omega arith) (omega arith)

reaction_add-IsConsistent_example :
    IsConsistent (reaction_add (all_well 3 99) 1 2 100 7 none holy (with_reactions 4)).0
unfolding find put any
reaction_add-IsConsistent_example =
    reaction_add-IsConsistent 3 99 7 (with_reactions 4) (λ (p : 99 ≡ 0). omega arith) refl
      four-IsConsistent 1 2 100 none holy

-- The fifth reaction shows the message with its number.
fifth_shown :
    (reaction_add (all_well 3 99) 1 2 100 7 none holy (with_reactions 4)).0.posts 99 ≡ some 5
unfolding reaction_add find put is_holy register_reaction register_message any
fifth_shown = refl

reaction_remove-IsConsistent_example :
    IsConsistent
      (reaction_remove
        (all_well 3 99)
        1
        2
        100
        7
        holy
        (reaction_add (all_well 3 99) 1 2 100 7 none holy (with_reactions 4)).0).0
reaction_remove-IsConsistent_example =
    reaction_remove-IsConsistent 3 99 7
      (reaction_add (all_well 3 99) 1 2 100 7 none holy (with_reactions 4)).0
      reaction_add-IsConsistent_example 1 2 100 holy

-- The message 7 is deleted together with one that is not in the table.
message_delete-IsConsistent_example :
    IsConsistent (message_delete (all_well 3 9) (7 ∷ 8 ∷ []) (with_reactions 4)).0
    × ((k : ℕ)
        → find k (message_delete (all_well 3 9) (7 ∷ 8 ∷ []) (with_reactions 4)).0.table
          ≡ (if contains (7 ∷ 8 ∷ []) k then none else find k (with_reactions 4).table))
    × ((message_delete (all_well 3 9) (7 ∷ 8 ∷ []) (with_reactions 4)).1 ≡ true)
message_delete-IsConsistent_example =
    message_delete-IsConsistent (all_well 3 9) (7 ∷ 8 ∷ []) (with_reactions 4) refl
      four-IsConsistent

-- User 3 has two messages that count, and user 4 one.
abbrev three_entries : Starboard
three_entries =
    (7, record { author_id = 3; sb_msg_id = none; num = 6 })
    ∷ (8, record { author_id = 4; sb_msg_id = none; num = 9 })
    ∷ (9, record { author_id = 3; sb_msg_id = none; num = 5 })
    ∷ []

get_rank_lem_example :
    (standing_in (get_rank 4 5 three_entries) ≡ totals 4 (counted_of 4 5 three_entries))
    × (find_ranked (is_author 4) (get_top10 5 three_entries)
        ≡ within 10 (get_rank 4 5 three_entries))
    × IsOrdered is_before (sort_by is_before (tally 5 three_entries))
get_rank_lem_example = get_rank_lem 4 5 three_entries

-- Their reactions rank user 4 second.
second_place :
    get_rank 4 5 three_entries
    ≡ some (record {
      row = record { author = 4; num_msg = 1; react_total = 9; max_react = 9 };
      rank = 2;
    })
unfolding get_rank tally add_entry sort_by insert_by is_before number_from find_ranked
second_place = refl

abbrev selected : Selected
selected = record { user = 4; is_bot = false; is_system = false; member = some [] }

-- User 5 has no messages that count.
bored :
    (process_rank (record selected { user = 5 }) three_entries no_roles).1
    ≡ with_embeds (bored_embed 5 0 ∷ [])
unfolding process_rank get_rank
bored = refl
