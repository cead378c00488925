-- ===== src/BotEvents/Polls.antt =====
-- `process_native_polls_reaction_add` of GreekBot/NativePolls.cpp.
use greek_bot.Prelude.{
  ℕ, Bool, true, false, not, List, [], ◌∷◌, Option, none, some, ◌==◌, if◌then◌else◌, contains,
}
use greek_bot.LearningGreek.{channel_native_polls}
use greek_bot.LearningGreek.Role

pub data PollRequest : Type 0 where
  get_member : ℕ → PollRequest
  delete_reaction : ℕ → ℕ → PollRequest
  direct_message : ℕ → PollRequest

-- For the roles of the user: the requests, and `false` for an exception. That the direct message cannot
-- be sent is caught.
unfoldable pub check_roles : Bool → ℕ → ℕ → List ℕ → List PollRequest × Bool
check_roles deleted user message roles =
    if contains roles Role.native
    then ([], true)
    else if deleted
    then (delete_reaction message user ∷ direct_message user ∷ [], true)
    else (delete_reaction message user ∷ [], false)

-- `member` are the roles of the member if the event has one, and `fetched` those that Discord gives.
unfoldable pub polls_reaction_add :
    Option (List ℕ) → Bool → ℕ → ℕ → ℕ → Option (List ℕ) → List PollRequest × Bool
unfolding check_roles
polls_reaction_add fetched deleted user channel message (some roles) =
    if not (channel == channel_native_polls)
    then ([], true)
    else check_roles deleted user message roles
polls_reaction_add (some roles) deleted user channel message none =
    let (requests, fine) = check_roles deleted user message roles in
    if not (channel == channel_native_polls) then ([], true) else (get_member user ∷ requests, fine)
polls_reaction_add none deleted user channel message none =
    if not (channel == channel_native_polls) then ([], true) else (get_member user ∷ [], false)
