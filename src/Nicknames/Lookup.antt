-- ===== src/Nicknames/Lookup.antt =====
-- What the table holds for a member after each operation.
use greek_bot.Prelude.{
  ℕ, ◌≡◌, ◌∙◌, refl, sym, ap, arith, Bool, true, false, List, [], ◌∷◌, none, some, ==_refl,
  if◌then◌else◌, Option-cases, inl, inr, ◌++◌,
}
use greek_bot.Prelude.Table.{find, put, find-put}
use greek_bot.Nicknames.Table.{Nicknames, Entry, Found, get, delete_message, update, column_id}
use greek_bot.Nicknames.Members.{
  Answer, done, unknown_message, failed, Request, Result, commit, forget,
}

find-put_self : (user : ℕ) (e : Entry) (t : Nicknames) → find user (put user e t) ≡ some e
find-put_self user e t = rw (find-put user user e t, ==_refl user) refl

pub get-put :
    (user : ℕ) (e : Entry) (t : Nicknames)
    → get user (put user e t)
      ≡ record { msg = column_id e.msg_id; name = elim e.nick [ none ↦ [] | some s ↦ s ] }
unfolding get
get-put user e t = rw (get, find-put_self user e t) refl

get-delete : (user : ℕ) (t : Nicknames) → (get user (delete_message user t).0).msg ≡ none
unfolding delete_message
get-delete user t = elim (Option-cases (find user t)) [
  | inl new ↦ rw (delete_message, new) (unfold get in rw (get, new) refl)
  | inr (e, q) ↦
      rw (delete_message, q)
        (ap (λ (f : Found). f.msg) (get-put user (record e { msg_id = none }) t))
]

pub get-update :
    (user : ℕ) (nick : List ℕ) (t : Nicknames) → (get user (update user nick t)).name ≡ nick
unfolding update
get-update user nick t = elim (Option-cases (find user t)) [
  | inl new ↦ rw (update, new) (ap (λ (f : Found). f.name) (get-put user _ t))
  | inr (e, q) ↦ rw (update, q) (ap (λ (f : Found). f.name) (get-put user _ t))
]

-- What `commit` keeps: the table before if an exception left, else the table after.
commit_ended :
    (a : Answer) (t t' : Nicknames) (rs : List Request)
    → (commit a t t' rs).ended ≡ true
    → (commit a t t' rs).table ≡ t'
unfolding commit
commit_ended done t t' rs h = refl
commit_ended unknown_message t t' rs h = refl
commit_ended failed t t' rs h = ground (arith, h)

commit_cases :
    (P : Nicknames → Type 0) (a : Answer) (t t' : Nicknames) (rs : List Request)
    → P t
    → P t'
    → P (commit a t t' rs).table
unfolding commit
commit_cases P done t t' rs p p' = p'
commit_cases P unknown_message t t' rs p p' = p'
commit_cases P failed t t' rs p p' = p

forget-commit :
    (a : Answer) (request : ℕ → Request) (user : ℕ) (rs : List Request) (t : Nicknames)
    → (b : Answer) × (rs' : List Request) × (forget a request user rs t
        ≡ commit b t (delete_message user t).0 rs')
unfolding forget
forget-commit a request user rs t = elim (Option-cases (delete_message user t).1) [
  | inl missing ↦ (done, rs, rw (forget, missing) refl)
  | inr (m, q) ↦ (a, (rs ++ request m ∷ []), rw (forget, q) refl)
]

pub stored_name :
    (user : ℕ) (e : Entry) (t : Nicknames)
    → find user t ≡ some e
    → (get user t).name ≡ elim e.nick [ none ↦ [] | some s ↦ s ]
unfolding get
stored_name user e t q = rw (get, q) refl

get-delete_name :
    (user : ℕ) (t : Nicknames) → (get user (delete_message user t).0).name ≡ (get user t).name
unfolding delete_message
get-delete_name user t = elim (Option-cases (find user t)) [
  | inl new ↦ rw (delete_message, new) refl
  | inr (e, q) ↦
      rw (delete_message, q)
        (ap (λ (f : Found). f.name) (get-put user (record e { msg_id = none }) t)
          ∙ sym (stored_name user e t q))
]

pub either_result :
    (b : Bool) (r s : Result) (P : Result → Type 0) → P r → P s → P (if b then r else s)
either_result true r s P p q = p
either_result false r s P p q = q

pub forget_ended :
    (a : Answer) (request : ℕ → Request) (user : ℕ) (rs : List Request) (t : Nicknames)
    → (forget a request user rs t).ended ≡ true
    → (get user (forget a request user rs t).table).msg ≡ none
forget_ended a request user rs t h =
    let (b, rs', q) = forget-commit a request user rs t in
    ap (λ (r : Result). (get user r.table).msg) q
    ∙ ap (λ x. (get user x).msg)
        (commit_ended b t (delete_message user t).0 rs' (ap (λ (r : Result). r.ended) (sym q) ∙ h))
    ∙ get-delete user t

pub forget_name :
    (a : Answer) (request : ℕ → Request) (user : ℕ) (rs : List Request) (t : Nicknames)
    → (get user (forget a request user rs t).table).name ≡ (get user t).name
forget_name a request user rs t =
    let (b, rs', q) = forget-commit a request user rs t in
    ap (λ (r : Result). (get user r.table).name) q
    ∙ commit_cases (λ x. (get user x).name ≡ (get user t).name) b t (delete_message user t).0 rs'
        refl (get-delete_name user t)
