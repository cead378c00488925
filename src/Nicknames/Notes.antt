-- ===== src/Nicknames/Notes.antt =====
-- The nickname of a member is kept, and a member is announced once.
use greek_bot.Prelude.{
  ℕ, ◌≡◌, ◌≢◌, ◌∙◌, refl, sym, ap, arith, true, false, not, ◌||◌, List, [], ◌∷◌, Option, none, some,
  ◌==◌, contains, filterb, length, is_empty, Option-cases, inl, inr,
}
use greek_bot.Prelude.Table.{find, put, any}
use greek_bot.LearningGreek.{proficiency_roles}
use greek_bot.Nicknames.Table.{Nicknames, Found, get, update, register_message, is_taken, column_id}
use greek_bot.Nicknames.Members.{
  done, Answers, Member, edit_note, delete_note, create_note, Result, commit, on_pending, on_ranked,
  notify, process_nick_member_update, without_proficiency, modify_member,
}
use greek_bot.Nicknames.Lookup.{
  get-put, get-update, stored_name, either_result, forget_ended, forget_name,
}

-- The nickname of a verified member is stored, whatever becomes of the notification message.
nickname_kept :
    (d : Answers) (member : Member) (t : Nicknames)
    → member.is_pending ≡ false
    → is_empty member.nickname ≡ false
    → (get member.id (process_nick_member_update d member t).table).name ≡ member.nickname
unfolding process_nick_member_update
nickname_kept d member t verified named =
    rw (verified, named)
      (forget_name d.changed edit_note member.id [] (update member.id member.nickname t)
        ∙ get-update member.id member.nickname t)

-- No notification message stays registered for a member who has not passed verification, if the
-- handler ends without an exception and the request to modify the member, if there is one, is
-- carried out.
pending_forgotten :
    (d : Answers) (member : Member) (t : Nicknames)
    → member.is_pending ≡ true
    → d.modified ≡ done
    → (process_nick_member_update d member t).ended ≡ true
    → (get member.id (process_nick_member_update d member t).table).msg ≡ none
unfolding process_nick_member_update on_pending
pending_forgotten d member t new accepted =
    rw (new, accepted)
      (either_result
        (not (is_empty member.nickname)
          || not (length (without_proficiency member.roles) == length member.roles))
        _ _ (λ r. r.ended ≡ true → (get member.id r.table).msg ≡ none)
        (forget_ended d.changed delete_note member.id (modify_member [] ∷ []) t)
        (forget_ended d.changed delete_note member.id [] t))

free-register_message :
    (user m : ℕ) (t : Nicknames)
    → any (is_taken user m) t ≡ false
    → m ≢ 0
    → (t' : Nicknames) × (register_message user m t ≡ some t')
      × ((get user t').msg ≡ some m)
      × ((get user t').name ≡ (get user t).name)
unfolding register_message get
free-register_message user m t free m0 = elim (Option-cases (find user t)) [
  | inl new ↦ (
    _,
    rw (register_message, free, new) refl,
    note none,
    ap (λ (f : Found). f.name) (get-put user _ t) ∙ rw (get, new) refl,
  )
  | inr (e, q) ↦ (
    _,
    rw (register_message, free, q) refl,
    note e.nick,
    ap (λ (f : Found). f.name) (get-put user (record e { msg_id = some m }) t)
        ∙ sym (stored_name user e t q),
  )
]
  where
    id_kept : column_id (some m) ≡ some m
    id_kept = ground arith

    note :
        (nick : Option (List ℕ))
        → (get user (put user (record { msg_id = some m; nick = nick }) t)).msg ≡ some m
    note nick =
        ap (λ (f : Found). f.msg) (get-put user (record { msg_id = some m; nick = nick }) t)
        ∙ id_kept

notified :
    (d : Answers) (user : ℕ) (t t' : Nicknames) (m : ℕ)
    → d.created ≡ some m
    → register_message user m t ≡ some t'
    → notify d user t ≡ record { table = t'; requests = create_note ∷ []; ended = true }
unfolding notify commit
notified d user t t' m sent stored = rw (notify, sent, stored) refl

-- A member with a proficiency role, no nickname and no message registered is announced by a new
-- message, with an id that is not 0 and that no other member's row has, and then no more: the next
-- update of the same member sends nothing.
announced_once :
    (d d' : Answers) (member : Member) (t : Nicknames) (m : ℕ)
    → member.is_pending ≡ false
    → is_empty member.nickname ≡ true
    → is_empty (filterb (contains proficiency_roles) member.roles) ≡ false
    → is_empty (get member.id t).name ≡ true
    → (get member.id t).msg ≡ none
    → d.created ≡ some m
    → m ≢ 0
    → any (is_taken member.id m) t ≡ false
    → ((process_nick_member_update d member t).requests ≡ create_note ∷ [])
      × ((process_nick_member_update d' member
            (process_nick_member_update d member t).table).requests
          ≡ [])
unfolding process_nick_member_update on_ranked notify commit
announced_once d d' member t m verified unnamed ranked nameless unposted sent m0 free =
    let (t', stored, posted, same) = free-register_message member.id m t free m0 in
    let first : process_nick_member_update d member t
        ≡ record { table = t'; requests = create_note ∷ []; ended = true } =
      rw (verified, unnamed, ranked, nameless, unposted)
        (notified d member.id t t' m sent stored) in
    (
      ap (λ (r : Result). r.requests) first,
      ap (λ (r : Result). (process_nick_member_update d' member r.table).requests) first
          ∙ rw (verified, unnamed, ranked, same, nameless, posted) refl,
    )
