-- ===== src/MessageLog/Deletions.antt =====
-- Each deleted message is reported, in messages of at most 10 embeds.
use greek_bot.Prelude.{
  ℕ, ◌≡◌, Bool, true, List, [], ◌∷◌, ◌++◌, none, some, if◌then◌else◌, contains, refl, arith, ap,
  sym, ◌∙◌, All, map, Option, Option-cases, inl, inr,
}
use mathlib.Core.List.{append-nil}
use greek_bot.Prelude.Table.{find, find-erase_all}
use greek_bot.MessageLog.Table.{MessageLog, remaining_logs, deleted_logs}
use greek_bot.MessageLog.Reports.{
  authors_of, starting, DeletionEmbed, Reporting, report_all, report_rest,
  process_msglog_message_delete,
}
use greek_bot.MessageLog.Reporting.{
  expected, IsReporting, report_rest-IsReporting, report_all-IsReporting,
}
use greek_bot.MessageLog.Authors.{joined, IsMessage, IsDistinct}

known_at_first :
    (found : List ℕ) (a : ℕ)
    → find a (map (λ user. (user, true)) found) ≡ (if contains found a then some true else none)
unfolding find
known_at_first [] a = refl
known_at_first (u ∷ found) a = ground (arith, known_at_first found a)

-- What deleting messages leaves and reports, for the members among the authors that were found, or
-- `none` if the request for them failed.
unfoldable pub IsReported :
    (ℕ → Bool) → Option (List ℕ) → List ℕ → MessageLog → MessageLog × Reporting → Type 0
IsReported exists none ids t (left, r) =
    (r.sent ≡ []) × ((msg : ℕ) → find msg left ≡ (if contains ids msg then none else find msg t))
IsReported exists (some found) ids t (left, r) =
    (joined r.sent ≡ expected exists found (deleted_logs ids t))
    × All IsMessage r.sent
    × IsDistinct r.asked
    × ((msg : ℕ) → find msg left ≡ (if contains ids msg then none else find msg t))

-- The loop over the messages that were deleted, once the members are known.
reported :
    (exists : ℕ → Bool) (answer : ℕ → Option Bool) (accepted : List DeletionEmbed → Bool)
    (ids : List ℕ) (t : MessageLog)
    → ((a : ℕ) → answer a ≡ some (exists a))
    → ((m : List DeletionEmbed) → accepted m ≡ true)
    → (found : List ℕ)
    → IsReported exists (some found) ids t (
      remaining_logs ids t,
      report_rest answer accepted
          (report_all answer accepted (deleted_logs ids t) (starting found)),
    )
unfolding remaining_logs IsDistinct IsReported
reported exists answer accepted ids t answers all_accepted found =
    let (v, none_wait) =
      report_rest-IsReporting exists found answer answers accepted all_accepted
        (expected exists found deleted) looped
        (report_all-IsReporting exists found answer answers accepted all_accepted deleted []
          (starting found) first) in
    (
      sym (append-nil (joined done.sent)) ∙ ap (λ l. joined done.sent ++ l) (sym none_wait) ∙ v.all,
      v.sized,
      v.once,
      λ msg. find-erase_all ids msg t,
    )
  where
    deleted : MessageLog
    deleted = deleted_logs ids t

    looped : Reporting
    looped = report_all answer accepted deleted (starting found)

    done : Reporting
    done = report_rest answer accepted looped

    first : IsReporting exists found [] (starting found)
    first = record {
      calm = refl;
      all = refl;
      few = omega arith;
      sized = tt;
      missing = λ a p. (ground (arith, known_at_first found a, p), refl);
      right = λ a b p. ground (arith, known_at_first found a, p);
      once = tt;
    }

-- If the request for members ends, if Discord tells of each author whether they exist, and if it accepts
-- all messages: each logged message that is deleted is forgotten and reported exactly once, with
-- whether its author is a member or known to Discord, in messages of 1 to 10 embeds, and no author
-- is asked for twice; the other messages stay. If the request for members fails the same messages
-- are forgotten and none is reported.
pub process_msglog_message_delete-IsReported :
    (exists : ℕ → Bool) (answer : ℕ → Option Bool) (accepted : List DeletionEmbed → Bool)
    (members : List ℕ → Option (List ℕ)) (ids : List ℕ) (t : MessageLog)
    → ((a : ℕ) → answer a ≡ some (exists a))
    → ((m : List DeletionEmbed) → accepted m ≡ true)
    → IsReported exists
        (members (authors_of (deleted_logs ids t)))
        ids
        t
        (process_msglog_message_delete answer accepted members ids t)
unfolding process_msglog_message_delete remaining_logs IsReported
process_msglog_message_delete-IsReported exists answer accepted members ids t answers all_accepted =
    elim (Option-cases (members (authors_of (deleted_logs ids t)))) [
      | inl broken ↦
          rw (process_msglog_message_delete, broken) (refl, λ msg. find-erase_all ids msg t)
      | inr (found, known) ↦
          rw (process_msglog_message_delete, known)
            (reported exists answer accepted ids t answers all_accepted found)
    ]
