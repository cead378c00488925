-- ===== src/Nicknames/Members.antt =====
-- `process_nick_new_member`, `process_nick_member_update` and `process_nick_member_remove` of
-- GreekBot/Nicknames.cpp. What Discord answers to the requests is an argument.
use greek_bot.Prelude.{
  ℕ, Bool, true, false, not, ◌||◌, List, [], ◌∷◌, Option, none, some, ◌==◌, if◌then◌else◌, contains,
  filterb, length, is_empty, ◌++◌,
}
use greek_bot.LearningGreek.{proficiency_roles}
use greek_bot.Nicknames.Table.{Nicknames, Found, get, delete_message, update, register_message}

-- A request is carried out, its message is not found, or it fails otherwise.
pub data Answer : Type 0 where
  done : Answer
  unknown_message : Answer
  failed : Answer

-- The answers to the modification of the member, to the deletion or edition of the message, and the
-- id of a new message, if it can be sent.
pub record Answers : Type 0 where
  pub modified : Answer
  pub changed : Answer
  pub created : Option ℕ

pub data Request : Type 0 where
  modify_member : List ℕ → Request
  delete_note : ℕ → Request
  edit_note : ℕ → Request
  create_note : Request

-- The table afterwards, the requests, and whether no exception leaves the handler.
pub record Result : Type 0 where
  pub table : Nicknames
  pub requests : List Request
  pub ended : Bool

pub record Member : Type 0 where
  pub id : ℕ
  pub is_pending : Bool
  pub nickname : List ℕ
  pub roles : List ℕ

-- A transaction from `before` to `after`: an exception other than UnknownMessage rolls it back.
unfoldable pub commit : Answer → Nicknames → Nicknames → List Request → Result
commit done before after rs = record { table = after; requests = rs; ended = true }
commit unknown_message before after rs = record { table = after; requests = rs; ended = true }
commit failed before after rs = record { table = before; requests = rs; ended = false }

-- `DeleteMessage` of the DAO and a request for the message that was registered.
unfoldable pub forget : Answer → (ℕ → Request) → ℕ → List Request → Nicknames → Result
unfolding commit
forget a request user rs t =
    let (t', msg) = delete_message user t in
    elim msg [ none ↦ commit done t t' rs | some m ↦ commit a t t' (rs ++ request m ∷ []) ]

abbrev pub without_proficiency : List ℕ → List ℕ
without_proficiency = filterb λ id. not (contains proficiency_roles id)

-- The member has not passed verification.
unfoldable pub on_pending : Answers → Member → Nicknames → Result
unfolding forget
on_pending d member t =
    let new_roles = without_proficiency member.roles in
    let forgotten = forget d.changed delete_note member.id in
    let modified = modify_member [] ∷ [] in
    if not (is_empty member.nickname) || not (length new_roles == length member.roles)
    then elim d.modified [
      | done ↦ forgotten modified t
      | unknown_message ↦ commit unknown_message t t modified
      | failed ↦ commit failed t t modified
    ]
    else forgotten [] t

-- A nickname is in the table, and the member gets it back.
unfoldable pub restore : Answers → Member → Found → Nicknames → Result
unfolding forget
restore d member found t =
    let modified = modify_member found.name ∷ [] in
    let created : Answer = elim d.created [ none ↦ failed | some m ↦ done ] in
    elim d.modified [
      | unknown_message ↦ commit unknown_message t t modified
      | failed ↦ commit failed t t modified
      | done ↦ elim found.msg [
        | some m ↦ forget d.changed edit_note member.id modified t
        | none ↦ commit created t t (modified ++ create_note ∷ [])
      ]
    ]

-- No nickname and no message: a new one is sent and registered.
unfoldable pub notify : Answers → ℕ → Nicknames → Result
unfolding commit
notify d user t = elim d.created [
  | none ↦ commit failed t t (create_note ∷ [])
  | some m ↦ elim (register_message user m t) [
    | none ↦ commit failed t t (create_note ∷ [])
    | some t' ↦ commit done t t' (create_note ∷ [])
  ]
]

-- The member has a proficiency role but no nickname.
unfoldable pub on_ranked : Answers → Member → Nicknames → Result
unfolding restore notify
on_ranked d member t =
    let found = get member.id t in
    if not (is_empty found.name)
    then restore d member found t
    else elim found.msg [ some m ↦ commit done t t [] | none ↦ notify d member.id t ]

unfoldable pub process_nick_member_update : Answers → Member → Nicknames → Result
unfolding on_pending forget on_ranked
process_nick_member_update d member t =
    if member.is_pending
    then on_pending d member t
    else if not (is_empty member.nickname)
    then forget d.changed edit_note member.id [] (update member.id member.nickname t)
    else if not (is_empty (filterb (contains proficiency_roles) member.roles))
    then on_ranked d member t
    else commit done t t []

-- `process_nick_new_member`: no transaction, so that the message is forgotten at once.
unfoldable pub process_nick_new_member : Answer → ℕ → Nicknames → Result
unfolding commit
process_nick_new_member a user t =
    let (t', msg) = delete_message user t in
    elim msg [ none ↦ commit done t' t' [] | some m ↦ commit a t' t' (delete_note m ∷ []) ]

-- `process_nick_member_remove`.
unfoldable pub process_nick_member_remove : Answer → ℕ → Nicknames → Result
unfolding forget
process_nick_member_remove a user t = forget a delete_note user [] t
