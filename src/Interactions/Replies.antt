-- ===== src/Interactions/Replies.antt =====
-- Discord/Bot_Interaction.cpp: what the calls that answer an interaction send, and when they mark it as
-- acknowledged. Messages, modals and message ids are left out of the requests, and what Discord returns
-- of an edited message.
use greek_bot.Prelude.{ℕ, Bool, true, not, ◌&&◌, List, ◌∷◌, if◌then◌else◌}

pub data Kind : Type 0 where
  command : Kind
  component : Kind
  modal_submit : Kind

-- The initial response, with its type, and the two requests that follow it up.
pub data Request : Type 0 where
  callback : ℕ → Request
  followup : Request
  edit_response : Request

-- A request, and whether Discord accepted it.
pub record Sent : Type 0 where
  pub request : Request
  pub accepted : Bool

-- `m_ack`, and the requests that were sent, the last first.
pub record Interaction : Type 0 where
  pub kind : Kind
  pub ack : Bool
  pub sent : List Sent

pub data Result : Type 0 where
  done : Result
  already_acknowledged : Result
  invalid_form_body : Result
  request_failed : Result

-- A callback: the interaction is marked only if Discord accepts it.
unfoldable pub send_callback : ℕ → Bool → Interaction → Interaction × Result
send_callback type accepted i =
    let sent = record { request = callback type; accepted = accepted } ∷ i.sent in
    if accepted
    then (record i { ack = true; sent = sent }, done)
    else (record i { sent = sent }, request_failed)

unfoldable pub send_other : Request → Bool → Interaction → Interaction × Result
send_other r accepted i =
    let sent = record { request = r; accepted = accepted } ∷ i.sent in
    if accepted
    then (record i { sent = sent }, done)
    else (record i { sent = sent }, request_failed)

-- The types of the callbacks.
abbrev pub deferred_type : Kind → Bool → ℕ
deferred_type command thinking = 5
deferred_type component thinking = if thinking then 5 else 6
deferred_type modal_submit thinking = if thinking then 5 else 6

unfoldable pub interaction_defer : Bool → Bool → Interaction → Interaction × Result
unfolding send_callback
interaction_defer thinking accepted i =
    if i.ack
    then (i, already_acknowledged)
    else send_callback (deferred_type i.kind thinking) accepted i

unfoldable pub interaction_send_message : Bool → Interaction → Interaction × Result
unfolding send_callback send_other
interaction_send_message accepted i =
    if i.ack then send_other followup accepted i else send_callback 4 accepted i

unfoldable pub interaction_send_modal : Bool → Interaction → Interaction × Result
unfolding send_callback
interaction_send_modal accepted i =
    let sent = if i.ack then (i, already_acknowledged) else send_callback 9 accepted i in
    elim i.kind [ modal_submit ↦ (i, invalid_form_body) | command ↦ sent | component ↦ sent ]

-- `own`: the message id is the default, or that of the message of the component.
unfoldable pub interaction_edit_message : Bool → Bool → Interaction → Interaction × Result
unfolding send_callback send_other
interaction_edit_message own accepted i =
    let edited = send_other edit_response accepted i in
    elim i.kind [
      | component ↦ if not i.ack && own then send_callback 7 accepted i else edited
      | command ↦ edited
      | modal_submit ↦ edited
    ]
