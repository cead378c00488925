-- ===== src/Interactions/Examples.antt =====
-- A deferred command with a message and an edit.
use greek_bot.Prelude.{◌≡◌, true, false, [], ◌∷◌, refl, List, some}
use greek_bot.Interactions.Replies.{
  command, interaction_defer, interaction_send_message, send_callback, send_other,
}
use greek_bot.Interactions.Controls.{custom_id, dismiss_button}
use greek_bot.Interactions.Once.{
  Call, defer, send_message, perform, perform_all, received, responses, IsAnswered,
  perform_all-IsAnswered,
}
use greek_bot.Interactions.Routing.{route_component, Route}

abbrev three_calls : List Call
three_calls = send_message false ∷ defer true true ∷ send_message true ∷ []

one_response : responses (perform_all three_calls (received command)).sent ≡ 1
unfolding perform_all perform interaction_defer interaction_send_message send_callback send_other
one_response = refl

perform_all-IsAnswered_example : IsAnswered (perform_all three_calls (received command))
perform_all-IsAnswered_example = perform_all-IsAnswered command three_calls

-- A hash of a fixed component wins over the prefix.
hash_first :
    route_component (λ s. 0x33330ADE) (custom_id (dismiss_button 42)) ≡ some Route.starboard_help
unfolding route_component
hash_first = refl
