-- ===== src/Bans/Guards.antt =====
-- Who bans whom: the checks of the three ban commands of GreekBot/GreekBot_Ban.cpp.
use greek_bot.Prelude.{
  ℕ, ◌≡◌, ◌≢◌, refl, Bool, true, false, List, Option, some, ◌==◌, Bool-cases, Option-cases, inl,
  inr, arith,
}
use greek_bot.Bans.Table.{TempBans}
use greek_bot.Bans.Commands.{
  Subcommand, ban_user, ban_turk, ban_greek, BanOptions, BanAnswers, BanResult, Ban, ban_made,
  ban_modal, expiry_of, ban_of, ban_texts, default_options, process_ban, process_ban_command,
  process_ban_ctx_menu, process_ban_modal,
}

-- What a ban that was made shows.
abbrev pub IsAllowed : BanAnswers → Bool → ℕ → Ban → Type 0
IsAllowed answers may_ban user b =
    (may_ban ≡ true) × (answers.deferred ≡ true) × (answers.banned ≡ true) × (b.banned_user ≡ user)

same_user : {b c : Ban} → ban_made c ≡ ban_made b → b.banned_user ≡ c.banned_user
same_user p = cc

module _ (now : ℕ) (turk greek : List ℕ) (answers : BanAnswers) where
  process_ban-IsAllowed :
      (sc : Subcommand) (user : ℕ) (o : BanOptions) (t : TempBans) (b : Ban)
      → (process_ban now turk greek answers sc user o t).1 ≡ ban_made b
      → IsAllowed answers true user b
  unfolding process_ban
  process_ban-IsAllowed sc user o t b p = elim (Option-cases (expiry_of now o.expiry_format)) [
    | inl invalid ↦ absurd (cc (rw (process_ban, invalid) at p))
    | inr (expiry, valid) ↦ elim (Bool-cases answers.deferred) [
      | inl deferred ↦ elim (Bool-cases answers.banned) [
        | inl banned ↦
            (refl, deferred, banned, same_user (rw (process_ban, valid, deferred, banned) at p))
        | inr refused ↦ absurd (cc (rw (process_ban, valid, deferred, refused) at p))
      ]
      | inr late ↦ absurd (cc (rw (process_ban, valid, late) at p))
    ]
  ]

  command-IsAllowed :
      (bot invoker user : ℕ) (may_ban : Bool) (sc : Subcommand) (o : BanOptions) (t : TempBans)
      (b : Ban)
      → (process_ban_command now turk greek answers bot invoker may_ban sc user o t).1 ≡ ban_made b
      → IsAllowed answers may_ban user b
  unfolding process_ban_command
  command-IsAllowed bot invoker user false sc o t b p = cc
  command-IsAllowed bot invoker user true sc o t b p = elim (Bool-cases (invoker == bot)) [
    | inl own ↦ absurd (cc (rw own at p))
    | inr other ↦ process_ban-IsAllowed sc user o t b (rw other at p)
  ]

  apart : (a b : ℕ) → (a == b) ≡ false → a ≢ b
  apart a b p q = ground (arith, p, q)

  menu-IsAllowed :
      (bot user : ℕ) (may_ban : Bool) (sc : Subcommand) (t : TempBans) (b : Ban)
      → (process_ban_ctx_menu now turk greek answers bot may_ban sc user t).1 ≡ ban_made b
      → IsAllowed answers may_ban user b × (user ≢ bot)
  unfolding process_ban_ctx_menu
  menu-IsAllowed bot user false sc t b p = absurd (cc)
  menu-IsAllowed bot user true sc t b p = elim (Bool-cases (user == bot)) [
    | inl own ↦ absurd (cc (rw own at p))
    | inr other ↦ (offered sc (rw other at p), apart user bot other)
  ]
    where
      offered :
          (sc : Subcommand)
          → let banned = process_ban now turk greek answers sc user default_options t in
            let result : TempBans × BanResult = elim sc [
              | ban_user ↦ (t, ban_modal)
              | ban_turk ↦ banned
              | ban_greek ↦ banned
            ] in
            result.1 ≡ ban_made b → IsAllowed answers true user b
      offered ban_user p = absurd (cc)
      offered ban_turk p = process_ban-IsAllowed ban_turk user default_options t b p
      offered ban_greek p = process_ban-IsAllowed ban_greek user default_options t b p

  modal-IsAllowed :
      (bot user : ℕ) (may_ban : Bool) (o : BanOptions) (t : TempBans) (b : Ban)
      → (process_ban_modal now turk greek answers bot may_ban user o t).1 ≡ ban_made b
      → IsAllowed answers may_ban user b × (user ≢ bot)
  unfolding process_ban_modal
  modal-IsAllowed bot user false o t b p = absurd (cc)
  modal-IsAllowed bot user true o t b p = elim (Bool-cases (user == bot)) [
    | inl own ↦ absurd (cc (rw own at p))
    | inr other ↦ (
      process_ban-IsAllowed ban_user user (record o { delete_hours = 168 }) t b (rw other at p),
      apart user bot other,
    )
  ]

  ban_of_bot :
      (bot invoker : ℕ) (sc : Subcommand) (o : BanOptions) (t : TempBans) (expiry : Option ℕ)
      → invoker ≢ bot
      → answers.deferred ≡ true
      → answers.banned ≡ true
      → expiry_of now o.expiry_format ≡ some expiry
      → (process_ban_command now turk greek answers bot invoker true sc bot o t).1
        ≡ ban_made (ban_of answers.messaged bot o.delete_hours expiry (ban_texts turk greek sc o))
  unfolding process_ban_command process_ban
  ban_of_bot bot invoker sc o t expiry other deferred banned valid =
      rw (process_ban_command, differ invoker bot other, process_ban, valid, deferred, banned) refl
    where
      differ : (a b : ℕ) → a ≢ b → (a == b) ≡ false
      differ a b p = ground (arith, p)

-- Whoever is banned by one of the three commands was named by it, and the invoker has the permission and
-- Discord accepted the ban. The context menu and the modal never ban this bot; the slash command
-- does, if anybody else with the permission names it, the format of the expiry is valid and Discord
-- accepts.
pub ban_made-IsAllowed :
    (now : ℕ) (turk greek : List ℕ) (answers : BanAnswers) (bot invoker user : ℕ) (may_ban : Bool)
    (sc : Subcommand) (o : BanOptions) (t : TempBans) (b : Ban)
    → ((process_ban_command now turk greek answers bot invoker may_ban sc user o t).1 ≡ ban_made b
        → IsAllowed answers may_ban user b)
      × ((process_ban_ctx_menu now turk greek answers bot may_ban sc user t).1 ≡ ban_made b
          → IsAllowed answers may_ban user b × (user ≢ bot))
      × ((process_ban_modal now turk greek answers bot may_ban user o t).1 ≡ ban_made b
          → IsAllowed answers may_ban user b × (user ≢ bot))
      × ((expiry : Option ℕ)
          → invoker ≢ bot
          → answers.deferred ≡ true
          → answers.banned ≡ true
          → expiry_of now o.expiry_format ≡ some expiry
          → (process_ban_command now turk greek answers bot invoker true sc bot o t).1
            ≡ ban_made
                (ban_of answers.messaged bot o.delete_hours expiry (ban_texts turk greek sc o)))
ban_made-IsAllowed now turk greek answers bot invoker user may_ban sc o t b = (
  command-IsAllowed now turk greek answers bot invoker user may_ban sc o t b,
  menu-IsAllowed now turk greek answers bot user may_ban sc t b,
  modal-IsAllowed now turk greek answers bot user may_ban o t b,
  ban_of_bot now turk greek answers bot invoker sc o t,
)
