-- ===== src/Nicknames/ReportExamples.antt =====
-- The reports on a crowd without nicknames.
use greek_bot.Prelude.{
  ℕ, zero, suc, ◌≡◌, refl, true, false, arith, List, [], ◌∷◌, some, All, length, codes,
}
use greek_bot.LearningGreek.Role as Role
use greek_bot.Nicknames.Members.{Member}
use greek_bot.Nicknames.Splitting.{joined, IsSendable}
use greek_bot.Nicknames.Report.{report, content_of, process_nicknames, collect}
use greek_bot.Nicknames.Lines.{IsId}
use greek_bot.Nicknames.Sending.{unnamed_of, process_nicknames_lem}

abbrev beginner : Member
beginner = record {
  id = 350234668680871946;
  is_pending = false;
  nickname = [];
  roles = Role.beginner ∷ [];
}

abbrev crowd : ℕ → List Member
crowd zero = []
crowd (suc n) = beginner ∷ crowd n

crowd-IsId : (n : ℕ) → All (λ m. IsId m.id) (crowd n)
crowd-IsId zero = tt
crowd-IsId (suc n) = (omega arith, crowd-IsId n)

-- One of them, and a member with a nickname.
one_learner :
    process_nicknames true (record beginner { nickname = codes "Nikos" } ∷ beginner ∷ []) 0
    ≡ some (report (codes "## Learners\n<@350234668680871946>\n" ∷ []))
unfolding process_nicknames
one_learner = refl

-- The report on a hundred of them has 2212 characters.
length-crowd : length (content_of (unnamed_of (crowd 100))) ≡ 2212
unfolding content_of collect
length-crowd = refl

process_nicknames_lem_example :
    (ms : List (List ℕ)) × (process_nicknames true (crowd 100) 0 ≡ some (report ms))
    × (joined ms ≡ content_of (unnamed_of (crowd 100)))
    × All IsSendable ms
process_nicknames_lem_example =
    process_nicknames_lem (crowd 100) (crowd-IsId 100) (omega (arith, length-crowd))
