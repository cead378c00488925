-- ===== src/Bans/Lifting.antt =====
-- What becomes of the expired bans.
use greek_bot.Prelude.{
  ==_iff, ℕ, ◌≡◌, ◌≢◌, Bool, true, false, ◌&&◌, List, [], ◌∷◌, none, ◌==◌, if◌then◌else◌, contains,
  refl, arith, ap, sym, ◌∙◌, ◌||◌,
}
use greek_bot.Prelude.Table.{IsKeyed, find, find-erase_all}
use greek_bot.Bans.Table.{TempBans, get_expired, get_expired_lem, has_expired, remove_bans}
use greek_bot.Bans.Commands.{LiftAnswer, lifted, no_ban, lift_failed}
use greek_bot.Bans.Timed.{lift_bans, lift_expired, floor_days}

abbrev pub is_lifted : LiftAnswer → Bool
is_lifted lifted = true
is_lifted no_ban = false
is_lifted lift_failed = false

-- The loop adds a user whose ban is lifted, and passes one whose ban is not.
added : (e c d l : Bool) → d ≡ (c && l) → (e ≡ true → l ≡ true) → (e || d) ≡ ((e || c) && l)
added true c d l q h = ground (arith, h refl)
added false c d l q h = q

passed : (e c d l : Bool) → d ≡ (c && l) → (e ≡ true → l ≡ false) → d ≡ ((e || c) && l)
passed true c d l q h = ground (arith, h refl, q)
passed false c d l q h = q

unbanned_all :
    (answer : ℕ → LiftAnswer) (logged : ℕ → Bool) (users : List ℕ) (user : ℕ)
    → ((u : ℕ) → answer u ≢ lift_failed)
    → ((u : ℕ) → logged u ≡ true)
    → ((lift_bans answer logged users).broken ≡ false)
      × (contains (lift_bans answer logged users).unbanned user
          ≡ (contains users user && is_lifted (answer user)))
unfolding lift_bans
unbanned_all answer logged [] user calm sent = (refl, refl)
unbanned_all answer logged (u ∷ users) user calm sent =
    let (fine, same) = unbanned_all answer logged users user calm sent in
    split (answer u) refl fine same
  where
    at_user : (u == user) ≡ true → answer user ≡ answer u
    at_user e = ap answer (sym ((==_iff u user).0 e))

    split :
        (a : LiftAnswer)
        → answer u ≡ a
        → (lift_bans answer logged users).broken ≡ false
        → contains (lift_bans answer logged users).unbanned user
          ≡ (contains users user && is_lifted (answer user))
        → ((lift_bans answer logged (u ∷ users)).broken ≡ false)
          × (contains (lift_bans answer logged (u ∷ users)).unbanned user
              ≡ (contains (u ∷ users) user && is_lifted (answer user)))
    split lifted q fine same =
        rw (lift_bans, q, sent u)
          (
            fine,
            added (u == user) (contains users user) _ (is_lifted (answer user)) same
                (λ e. ap is_lifted (at_user e ∙ q)),
          )
    split no_ban q fine same =
        rw (lift_bans, q)
          (
            fine,
            passed (u == user) (contains users user) _ (is_lifted (answer user)) same
                (λ e. ap is_lifted (at_user e ∙ q)),
          )
    split lift_failed q fine same = absurd (calm u q)

-- If nothing but Discord's answer that there is no ban goes wrong: each ban that has expired by the
-- heartbeat and is lifted is forgotten, and every other stays, also one that Discord does not know.
pub lift_expired_lem :
    (answer : ℕ → LiftAnswer) (logged : ℕ → Bool) (now user : ℕ) (t : TempBans)
    → IsKeyed t
    → ((u : ℕ) → answer u ≢ lift_failed)
    → ((u : ℕ) → logged u ≡ true)
    → find user (lift_expired answer logged now t) ≡ (
        if has_expired (floor_days now) (find user t) && is_lifted (answer user)
        then none
        else find user t)
unfolding lift_expired remove_bans
lift_expired_lem answer logged now user t v calm sent =
    let expired = get_expired (floor_days now) t in
    let (fine, same) = unbanned_all answer logged expired user calm sent in
    rw (lift_expired, fine)
      (find-erase_all (lift_bans answer logged expired).unbanned user t
        ∙ ap (λ b. if b then none else find user t)
            (same
              ∙ ap (λ b. b && is_lifted (answer user)) (get_expired_lem user (floor_days now) t v)))
