-- ===== src/Interactions/Once.antt =====
-- An interaction gets one initial response.
use greek_bot.Prelude.{
  ℕ, ◌+◌, ◌≡◌, Bool, true, false, not, ◌&&◌, List, [], ◌∷◌, if◌then◌else◌, refl, arith, if-holds,
}
use greek_bot.Interactions.Replies.{
  Kind, command, component, modal_submit, Request, callback, followup, edit_response, Sent,
  Interaction, Result, already_acknowledged, invalid_form_body, send_callback, send_other,
  deferred_type, interaction_defer, interaction_send_message, interaction_send_modal,
  interaction_edit_message,
}

-- The calls, each with whether Discord accepts the request.
pub data Call : Type 0 where
  defer : Bool → Bool → Call
  send_message : Bool → Call
  send_modal : Bool → Call
  edit_message : Bool → Bool → Call

unfoldable pub perform : Call → Interaction → Interaction × Result
perform (defer thinking accepted) i = interaction_defer thinking accepted i
perform (send_message accepted) i = interaction_send_message accepted i
perform (send_modal accepted) i = interaction_send_modal accepted i
perform (edit_message own accepted) i = interaction_edit_message own accepted i

unfoldable pub perform_all : List Call → Interaction → Interaction
unfolding perform
perform_all [] i = i
perform_all (c ∷ cs) i = perform_all cs (perform c i).0

abbrev pub received : Kind → Interaction
received kind = record { kind = kind; ack = false; sent = [] }

-- The initial responses that Discord accepted.
abbrev pub responses : List Sent → ℕ
responses [] = 0
responses (s ∷ ss) = elim s.request [
  | callback type ↦ if s.accepted then responses ss + 1 else responses ss
  | followup ↦ responses ss
  | edit_response ↦ responses ss
]

-- An initial response is tried only while none was accepted, and a followup only after one was.
abbrev pub InTurn : Request → ℕ → Type 0
InTurn (callback type) n = n ≡ 0
InTurn followup n = n ≡ 1
InTurn edit_response n = Unit

unfoldable pub AllInTurn : List Sent → Type 0
AllInTurn [] = Unit
AllInTurn (s ∷ ss) = InTurn s.request (responses ss) × AllInTurn ss

unfoldable pub IsAnswered : Interaction → Type 0
IsAnswered i = (responses i.sent ≡ (if i.ack then 1 else 0)) × AllInTurn i.sent

send_callback-IsAnswered :
    (type : ℕ) (accepted : Bool) (i : Interaction)
    → i.ack ≡ false
    → IsAnswered i
    → IsAnswered (send_callback type accepted i).0
unfolding IsAnswered AllInTurn send_callback
send_callback-IsAnswered type true i fresh (count, turns) =
    (ground (arith, count, fresh), (ground (arith, count, fresh), turns))
send_callback-IsAnswered type false i fresh (count, turns) =
    (count, (ground (arith, count, fresh), turns))

edit-IsAnswered :
    (accepted : Bool) (i : Interaction)
    → IsAnswered i
    → IsAnswered (send_other edit_response accepted i).0
unfolding IsAnswered AllInTurn send_other
edit-IsAnswered true i (count, turns) = (count, (tt, turns))
edit-IsAnswered false i (count, turns) = (count, (tt, turns))

followup-IsAnswered :
    (accepted : Bool) (i : Interaction)
    → i.ack ≡ true
    → IsAnswered i
    → IsAnswered (send_other followup accepted i).0
unfolding IsAnswered AllInTurn send_other
followup-IsAnswered true i answered (count, turns) =
    (count, (ground (arith, count, answered), turns))
followup-IsAnswered false i answered (count, turns) =
    (count, (ground (arith, count, answered), turns))

IsAnsweredFirst : Interaction × Result → Type 0
IsAnsweredFirst r = IsAnswered r.0

perform-IsAnswered : (c : Call) (i : Interaction) → IsAnswered i → IsAnswered (perform c i).0
unfolding perform interaction_defer interaction_send_message interaction_send_modal
    interaction_edit_message IsAnsweredFirst
perform-IsAnswered (defer thinking accepted) i v =
    if-holds IsAnsweredFirst i.ack _ _ (λ p. v)
      (λ p. send_callback-IsAnswered (deferred_type i.kind thinking) accepted i p v)
perform-IsAnswered (send_message accepted) i v =
    if-holds IsAnsweredFirst i.ack _ _ (λ p. followup-IsAnswered accepted i p v)
      (λ p. send_callback-IsAnswered 4 accepted i p v)
perform-IsAnswered (send_modal accepted) i v = by_kind i.kind
  where
    shown :
        IsAnsweredFirst (if i.ack then (i, already_acknowledged) else send_callback 9 accepted i)
    shown =
        if-holds IsAnsweredFirst i.ack _ _ (λ p. v) (λ p. send_callback-IsAnswered 9 accepted i p v)

    by_kind :
        (k : Kind)
        → IsAnsweredFirst (elim k [
          | modal_submit ↦ (i, invalid_form_body)
          | command ↦ if i.ack then (i, already_acknowledged) else send_callback 9 accepted i
          | component ↦ if i.ack then (i, already_acknowledged) else send_callback 9 accepted i
        ])
    by_kind command = shown
    by_kind component = shown
    by_kind modal_submit = v
perform-IsAnswered (edit_message own accepted) i v = by_kind i.kind
  where
    fresh : (a b : Bool) → (not a && b) ≡ true → a ≡ false
    fresh true b p = absurd (ground (arith, p))
    fresh false b p = refl

    by_kind :
        (k : Kind)
        → IsAnsweredFirst (elim k [
          | component ↦
              if not i.ack && own
              then send_callback 7 accepted i
              else send_other edit_response accepted i
          | command ↦ send_other edit_response accepted i
          | modal_submit ↦ send_other edit_response accepted i
        ])
    by_kind command = edit-IsAnswered accepted i v
    by_kind modal_submit = edit-IsAnswered accepted i v
    by_kind component =
        if-holds IsAnsweredFirst (not i.ack && own) _ _
          (λ p. send_callback-IsAnswered 7 accepted i (fresh i.ack own p) v)
          (λ p. edit-IsAnswered accepted i v)

perform_all-IsAnsweredBy :
    (cs : List Call) (i : Interaction) → IsAnswered i → IsAnswered (perform_all cs i)
unfolding perform_all
perform_all-IsAnsweredBy [] i v = v
perform_all-IsAnsweredBy (c ∷ cs) i v =
    perform_all-IsAnsweredBy cs (perform c i).0 (perform-IsAnswered c i v)

-- Whatever calls answer an interaction, and whichever of their requests Discord accepts: the
-- interaction is marked exactly if one initial response was accepted, no initial response is sent
-- after that, and no followup before.
pub perform_all-IsAnswered :
    (kind : Kind) (cs : List Call) → IsAnswered (perform_all cs (received kind))
unfolding IsAnswered AllInTurn
perform_all-IsAnswered kind cs = perform_all-IsAnsweredBy cs (received kind) (refl, tt)
