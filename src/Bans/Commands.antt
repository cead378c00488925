-- ===== src/Bans/Commands.antt =====
-- GreekBot/GreekBot_Ban.cpp: the ban commands, the unban command, and `process_ban`. Of the embeds the
-- texts that vary are kept. An exception of the table itself is left aside.
use greek_bot.Prelude.{
  split_colon, ℕ, ◌*◌, Bool, not, ◌&&◌, List, [], ◌∷◌, ◌++◌, Option, none, some, ◌==◌,
  if◌then◌else◌, ltb, same_text, ◌>>=◌,
}
use greek_bot.Bans.Duration.{day_length, wrap_time, parse_ban_duration}
use greek_bot.Bans.Table.{TempBans, register_ban, remove_ban}

pub data Subcommand : Type 0 where
  ban_user : Subcommand
  ban_turk : Subcommand
  ban_greek : Subcommand

-- The options of a ban: how long messages are deleted for, in hours, and three texts.
pub record BanOptions : Type 0 where
  pub delete_hours : ℕ
  pub reason : List ℕ
  pub goodbye : List ℕ
  pub expiry_format : List ℕ

abbrev pub default_options : BanOptions
default_options = record { delete_hours = 168; reason = []; goodbye = []; expiry_format = [] }

-- What Discord lets happen: the acknowledgement, the direct message, the ban.
pub record BanAnswers : Type 0 where
  pub deferred : Bool
  pub messaged : Bool
  pub banned : Bool

-- The request that Discord was sent, and what the confirmation shows.
pub record Ban : Type 0 where
  pub banned_user : ℕ
  pub deleted_hours : ℕ
  pub ban_reason : List ℕ
  pub until : Option ℕ
  pub shown_goodbye : Option (List ℕ)

pub data BanResult : Type 0 where
  missing_permission : BanResult
  not_banning_myself : Subcommand → BanResult
  invalid_format : BanResult
  ban_modal : BanResult
  ban_failed : BanResult
  ban_made : Ban → BanResult

-- The expiry that is registered: `some none` is no expiry, `none` an invalid format.
unfoldable pub expiry_of : ℕ → List ℕ → Option (Option ℕ)
unfolding wrap_time parse_ban_duration
expiry_of now [] = some none
expiry_of now (c ∷ s) = elim (parse_ban_duration now (c ∷ s)) [
  | none ↦ none
  | some day ↦ if ltb now (wrap_time (day * day_length)) then some (some day) else none
]

-- "Turk troll", "Greek troll" and "Unspecified".
abbrev pub turk_troll : List ℕ
turk_troll = 84 ∷ 117 ∷ 114 ∷ 107 ∷ 32 ∷ 116 ∷ 114 ∷ 111 ∷ 108 ∷ 108 ∷ []

abbrev pub greek_troll : List ℕ
greek_troll = 71 ∷ 114 ∷ 101 ∷ 101 ∷ 107 ∷ 32 ∷ 116 ∷ 114 ∷ 111 ∷ 108 ∷ 108 ∷ []

abbrev pub unspecified : List ℕ
unspecified = 85 ∷ 110 ∷ 115 ∷ 112 ∷ 101 ∷ 99 ∷ 105 ∷ 102 ∷ 105 ∷ 101 ∷ 100 ∷ []

-- The reason and the goodbye message. The two fixed goodbyes, of which the second is chosen at random,
-- are arguments.
abbrev pub or_text : List ℕ → List ℕ → List ℕ
or_text [] d = d
or_text (c ∷ s) d = c ∷ s

unfoldable pub ban_texts : List ℕ → List ℕ → Subcommand → BanOptions → List ℕ × List ℕ
ban_texts turk greek ban_turk o = (turk_troll, turk)
ban_texts turk greek ban_greek o = (greek_troll, greek)
ban_texts turk greek ban_user o =
    let reason = or_text o.reason unspecified in (reason, or_text o.goodbye reason)

-- The request and the confirmation. The goodbye is shown if it was sent, and differs.
abbrev pub ban_of : Bool → ℕ → ℕ → Option ℕ → List ℕ × List ℕ → Ban
ban_of messaged user hours expiry (reason, goodbye) = record {
  banned_user = user;
  deleted_hours = hours;
  ban_reason = reason;
  until = expiry;
  shown_goodbye = if messaged && not (same_text reason goodbye) then some goodbye else none;
}

-- `process_ban`, the main logic: the row is committed only if Discord bans the user.
module _ (now : ℕ) (turk greek : List ℕ) (answers : BanAnswers) where
  unfoldable pub process_ban : Subcommand → ℕ → BanOptions → TempBans → TempBans × BanResult
  unfolding expiry_of ban_texts register_ban
  process_ban sc user o t = elim (expiry_of now o.expiry_format) [
    | none ↦ (t, invalid_format)
    | some expiry ↦
        let made = ban_of answers.messaged user o.delete_hours expiry (ban_texts turk greek sc o) in
        if answers.deferred && answers.banned
        then (register_ban user expiry t, ban_made made)
        else (t, ban_failed)
  ]

  -- The slash command, for the ids of this bot and of the invoking user.
  unfoldable pub process_ban_command :
      ℕ → ℕ → Bool → Subcommand → ℕ → BanOptions → TempBans → TempBans × BanResult
  unfolding process_ban
  process_ban_command bot invoker may_ban sc user o t =
      if not may_ban
      then (t, missing_permission)
      else if invoker == bot
      then (t, not_banning_myself sc)
      else process_ban sc user o t

  -- The context menu: a modal follows unless the subcommand is about trolls.
  unfoldable pub process_ban_ctx_menu : ℕ → Bool → Subcommand → ℕ → TempBans → TempBans × BanResult
  unfolding process_ban
  process_ban_ctx_menu bot may_ban sc user t =
      let banned = process_ban sc user default_options t in
      if not may_ban
      then (t, missing_permission)
      else if user == bot
      then (t, not_banning_myself sc)
      else elim sc [ ban_user ↦ (t, ban_modal) | ban_turk ↦ banned | ban_greek ↦ banned ]

  -- The modal, whose id has the user.
  unfoldable pub process_ban_modal : ℕ → Bool → ℕ → BanOptions → TempBans → TempBans × BanResult
  unfolding process_ban
  process_ban_modal bot may_ban user o t =
      if not may_ban
      then (t, missing_permission)
      else if user == bot
      then (t, not_banning_myself ban_user)
      else process_ban ban_user user (record o { delete_hours = 168 }) t

-- The id of the modal: four texts, which only the last of may have colons.
pub record ModalId : Type 0 where
  pub user_text : List ℕ
  pub avatar : List ℕ
  pub username : List ℕ
  pub discriminator : List ℕ

abbrev pub format_modal_id : ModalId → List ℕ
format_modal_id i = i.user_text ++ (58 ∷ i.avatar ++ (58 ∷ i.username ++ (58 ∷ i.discriminator)))

unfoldable pub parse_modal_id : List ℕ → Option ModalId
unfolding split_colon
parse_modal_id s = do
  first ← split_colon s
  second ← split_colon first.1
  third ← split_colon second.1
  some (record {
    user_text = first.0;
    avatar = second.0;
    username = third.0;
    discriminator = third.1;
  })

-- What becomes of an unban: it is carried out, there was no ban, or another exception.
pub data LiftAnswer : Type 0 where
  lifted : LiftAnswer
  no_ban : LiftAnswer
  lift_failed : LiftAnswer

pub data UnbanResult : Type 0 where
  unban_forbidden : UnbanResult
  unbanned : ℕ → UnbanResult
  unban_failed : UnbanResult

unfoldable pub process_unban : Bool → Bool → LiftAnswer → ℕ → TempBans → TempBans × UnbanResult
unfolding remove_ban
process_unban may_ban deferred answer user t =
    if not may_ban
    then (t, unban_forbidden)
    else if not deferred
    then (t, unban_failed)
    else elim answer [
      | lifted ↦ (remove_ban user t, unbanned user)
      | no_ban ↦ (remove_ban user t, unbanned user)
      | lift_failed ↦ (t, unban_failed)
    ]
