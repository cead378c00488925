-- ===== src/Guild/Voice.antt =====
-- GreekBot/GreekBot_Voice.cpp: the voice states of the guild, and what is logged of their changes.
use greek_bot.Prelude.{
  ==_iff, if-holds, ℕ, ◌≡◌, Bool, true, false, List, [], ◌∷◌, Option, none, some, if◌then◌else◌,
  ◌==◌, arith, Bool-cases, inl, inr, ap, sym, ◌∙◌, Option-cases, refl,
}
use greek_bot.Prelude.Table.{IsKeyed, put-IsKeyed, find, put, find-put}

-- `m_lmg_voice_states`: for each user the channel.
abbrev pub VoiceStates : Type 0
VoiceStates = List (ℕ × ℕ)

pub data VoiceLog : Type 0 where
  left_unknown : VoiceLog
  left_channel : ℕ → VoiceLog
  joined_channel : ℕ → VoiceLog
  moved : ℕ → ℕ → VoiceLog

-- `erase` of the state that was found: the first of the user.
unfoldable pub erase_first : ℕ → VoiceStates → VoiceStates
erase_first user [] = []
erase_first user ((u, c) ∷ t) =
    let rest = erase_first user t in if u == user then t else (u, c) ∷ rest

-- `OnVoiceStateUpdate`, for a state of this guild or another, with a channel or none.
unfoldable pub on_voice_state_update :
    Bool → ℕ → Option ℕ → VoiceStates → VoiceStates × Option VoiceLog
unfolding erase_first
on_voice_state_update false user channel t = (t, none)
on_voice_state_update true user none t = elim (find user t) [
  | none ↦ (t, some left_unknown)
  | some old ↦ (erase_first user t, some (left_channel old))
]
on_voice_state_update true user (some channel) t = elim (find user t) [
  | none ↦ (put user channel t, some (joined_channel channel))
  | some old ↦
      if channel == old
      then (put user channel t, none)
      else (put user channel t, some (moved old channel))
]

-- What a change from one channel to another, or none, is logged as.
abbrev pub describe : Option ℕ → Option ℕ → Option VoiceLog
describe none none = some left_unknown
describe (some old) none = some (left_channel old)
describe none (some channel) = some (joined_channel channel)
describe (some old) (some channel) = if channel == old then none else some (moved old channel)

find-erase_first :
    (j user : ℕ) (t : VoiceStates)
    → IsKeyed t
    → find j (erase_first user t) ≡ (if user == j then none else find j t)
unfolding IsKeyed find erase_first
find-erase_first j user [] v = ground arith
find-erase_first j user ((u, c) ∷ t) (new, v) = elim (Bool-cases (u == user)) [
  | inl same ↦ rw same (
      ground
        (arith, ap (λ k. find k t) (sym ((==_iff u user).0 same)) ∙ new, (==_iff u user).0 same))
  | inr other ↦ rw other (ground (arith, find-erase_first j user t v, other))
]

erase_first-IsKeyed : (user : ℕ) (t : VoiceStates) → IsKeyed t → IsKeyed (erase_first user t)
unfolding IsKeyed erase_first
erase_first-IsKeyed user [] v = tt
erase_first-IsKeyed user ((u, c) ∷ t) (new, v) = elim (Bool-cases (u == user)) [
  | inl same ↦ rw same v
  | inr other ↦
      rw other (find-erase_first u user t v ∙ ground (arith, new), erase_first-IsKeyed user t v)
]

gone :
    (user j : ℕ) (t : VoiceStates)
    → find user t ≡ none
    → find j t ≡ (if user == j then none else find j t)
gone user j t absent = elim (Bool-cases (user == j)) [
  | inl same ↦ rw same (ap (λ k. find k t) (sym ((==_iff user j).0 same)) ∙ absent)
  | inr other ↦ rw other refl
]

-- If each user has one state at most: a voice event of this guild leaves it so, sets the channel of its
-- user to the new one, leaves those of the others, and logs the change from the channel that was kept
-- to the new one.
on_voice_state_update_lem :
    (user : ℕ) (channel : Option ℕ) (t : VoiceStates)
    → IsKeyed t
    → IsKeyed (on_voice_state_update true user channel t).0
      × ((j : ℕ)
          → find j (on_voice_state_update true user channel t).0
            ≡ (if user == j then channel else find j t))
      × ((on_voice_state_update true user channel t).1 ≡ describe (find user t) channel)
unfolding on_voice_state_update
on_voice_state_update_lem user none t v = elim (Option-cases (find user t)) [
  | inl absent ↦ rw (on_voice_state_update, absent) (v, λ j. gone user j t absent, refl)
  | inr (old, present) ↦
      rw (on_voice_state_update, present)
        (erase_first-IsKeyed user t v, λ j. find-erase_first j user t v, refl)
]
on_voice_state_update_lem user (some channel) t v = elim (Option-cases (find user t)) [
  | inl absent ↦
      rw (on_voice_state_update, absent)
        (put-IsKeyed user channel t v, λ j. find-put j user channel t, refl)
  | inr (old, present) ↦
      rw (on_voice_state_update, present)
        (if-holds
          (λ (r : VoiceStates × Option VoiceLog).
            IsKeyed r.0
            × ((j : ℕ) → find j r.0 ≡ (if user == j then some channel else find j t))
            × (r.1 ≡ (if channel == old then none else some (moved old channel))))
          (channel == old) _ _
          (λ p. (put-IsKeyed user channel t v, λ j. find-put j user channel t, rw p refl))
          (λ p. (put-IsKeyed user channel t v, λ j. find-put j user channel t, rw p refl)))
]
