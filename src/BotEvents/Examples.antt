-- ===== src/BotEvents/Examples.antt =====
-- Events of messages on concrete tables.
use greek_bot.Prelude.{◌≡◌, refl, true, false, [], ◌∷◌, none, some, if◌then◌else◌, contains}
use greek_bot.Prelude.Table.{find}
use greek_bot.LearningGreek.{guild_id, channel_native_polls}
use greek_bot.Starboard.Handlers.{all_well}
use greek_bot.BotEvents.Polls.{
  polls_reaction_add, check_roles, get_member, delete_reaction, direct_message,
}
use greek_bot.BotEvents.Messages.{Tables, on_message_delete_bulk}
use greek_bot.BotEvents.Forgetting.{on_message_delete_bulk-forgets}

-- Message 7 is in the log and on the starboard.
abbrev tables : Tables
tables = record {
  log = (7, record { channel_id = 40; author_id = 5; text = none }) ∷ [];
  ranks = [];
  board = record {
    table = (7, record { author_id = 5; sb_msg_id = none; num = 2 }) ∷ [];
    posts = λ s. none;
  };
}

on_message_delete_bulk-forgets_example :
    (find 7
        (on_message_delete_bulk
          (λ u. some true)
          (λ m. false)
          (λ us. none)
          (all_well 5 99)
          (some guild_id)
          (7 ∷ [])
          tables).0.log
      ≡ (if contains (7 ∷ []) 7 then none else find 7 tables.log))
    × (find 7
          (on_message_delete_bulk
            (λ u. some true)
            (λ m. false)
            (λ us. none)
            (all_well 5 99)
            (some guild_id)
            (7 ∷ [])
            tables).0.board.table
        ≡ (if contains (7 ∷ []) 7 then none else find 7 tables.board.table))
    × ((on_message_delete_bulk
          (λ u. some true)
          (λ m. false)
          (λ us. none)
          (all_well 5 99)
          (some guild_id)
          (7 ∷ [])
          tables).0.ranks
        ≡ tables.ranks)
on_message_delete_bulk-forgets_example =
    on_message_delete_bulk-forgets (λ u. some true) (λ m. false) (λ us. none) (all_well 5 99)
      (some guild_id) (7 ∷ []) tables 7 refl

-- A user without the role loses the reaction and is told why.
reaction_refused :
    polls_reaction_add (some []) true 5 channel_native_polls 7 none
    ≡ (get_member 5 ∷ delete_reaction 7 5 ∷ direct_message 5 ∷ [], true)
unfolding polls_reaction_add check_roles
reaction_refused = refl
