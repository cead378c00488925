-- ===== src/Nicknames/Report.antt =====
-- `process_nicknames` of GreekBot/Nicknames.cpp: which members have a proficiency role and no nickname.
use greek_bot.Prelude.{
  ℕ, suc, Bool, not, List, [], ◌∷◌, ◌++◌, Option, none, some, ◌==◌, ◌||◌, if◌then◌else◌, length,
  is_empty, codes,
}
use mathlib.Core.Option
use greek_bot.LearningGreek.Role
use greek_bot.Utils.Digits.{decimal}
use greek_bot.Nicknames.Members.{Member}
use greek_bot.Nicknames.Chunks.{send_chunks}

pub record Unnamed : Type 0 where
  pub nonlearners : List ℕ
  pub fluents : List ℕ
  pub learners : List ℕ

pub data Class : Type 0 where
  nonlearner : Class
  fluent : Class
  learner : Class

-- The switch on a role.
unfoldable pub class_of : ℕ → Option Class
class_of role =
    if (role == Role.native) || (role == Role.non_learner)
    then some nonlearner
    else if role == Role.fluent
    then some fluent
    else if (role == Role.beginner)
        || ((role == Role.elementary)
            || ((role == Role.intermediate)
                || ((role == Role.upper_intermediate) || (role == Role.advanced))))
    then some learner
    else none

-- The first role of a class decides.
unfoldable pub classify : List ℕ → Option Class
unfolding class_of
classify [] = none
classify (role ∷ roles) = elim (class_of role) [ none ↦ classify roles | some c ↦ some c ]

abbrev pub push : Option Class → ℕ → Unnamed → Unnamed
push none id u = u
push (some nonlearner) id u = record u { nonlearners = u.nonlearners ++ id ∷ [] }
push (some fluent) id u = record u { fluents = u.fluents ++ id ∷ [] }
push (some learner) id u = record u { learners = u.learners ++ id ∷ [] }

unfoldable pub collect : List Member → Unnamed → Unnamed
unfolding classify
collect [] u = u
collect (m ∷ ms) u =
    collect ms (if not (is_empty m.nickname) then u else push (classify m.roles) m.id u)

-- `{:u} ` for each.
unfoldable pub mentions : List ℕ → List ℕ
unfolding decimal
mentions [] = []
mentions (id ∷ ids) = (60 ∷ 64 ∷ decimal id ++ 62 ∷ 32 ∷ []) ++ mentions ids

-- `content.back() = c`.
unfoldable pub set_back : ℕ → List ℕ → List ℕ
set_back c [] = []
set_back c (d ∷ []) = c ∷ []
set_back c (d ∷ e ∷ s) = d ∷ set_back c (e ∷ s)

unfoldable pub add_section : List ℕ → List ℕ → List ℕ → List ℕ
unfolding mentions set_back
add_section title ids content =
    if not (is_empty ids) then set_back 10 (content ++ (title ++ mentions ids)) else content

unfoldable pub content_of : Unnamed → List ℕ
unfolding add_section
content_of u =
    let content = add_section (codes "## Natives and non-learners\n") u.nonlearners (
      add_section (codes "## Fluents\n") u.fluents
        (add_section (codes "## Learners\n") u.learners [])) in
    if is_empty content then codes "Nothing to show" else content

pub data ReportReply : Type 0 where
  missing_permission : ReportReply
  rate_limited : ℕ → ReportReply
  report : List (List ℕ) → ReportReply

-- `may_manage` is the permission to manage nicknames, and `retry_after` is 0 if no rate limit ended the
-- request for the members. The messages are those sent if none fails.
unfoldable pub process_nicknames : Bool → List Member → ℕ → Option ReportReply
unfolding collect content_of send_chunks
process_nicknames may_manage members retry_after =
    let content =
      content_of (collect members (record { nonlearners = []; fluents = []; learners = [] })) in
    if not may_manage
    then some missing_permission
    else if not (retry_after == 0)
    then some (rate_limited retry_after)
    else Option.map report (send_chunks (suc (length content)) content)
