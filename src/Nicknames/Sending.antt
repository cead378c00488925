-- ===== src/Nicknames/Sending.antt =====
-- The report of `process_nicknames` is sent as a whole.
use greek_bot.Prelude.{
  ℕ, suc, ◌<◌, ◌≡◌, ap, true, List, [], ◌∷◌, Option, none, some, not, is_empty, length, All,
  All-append, arith, Bool-cases, inl, inr,
}
use mathlib.Core.Option
use greek_bot.Nicknames.Members.{Member}
use greek_bot.Nicknames.Chunks.{npos}
use greek_bot.Nicknames.Splitting.{joined, IsSendable, send_chunks_lem}
use greek_bot.Nicknames.Report.{
  Unnamed, Class, nonlearner, fluent, learner, push, classify, collect, content_of, report,
  process_nicknames,
}
use greek_bot.Nicknames.Lines.{IsId}
use greek_bot.Nicknames.Spacing.{AllIds, content_of-spaced}

push-AllIds : (c : Option Class) (id : ℕ) (u : Unnamed) → IsId id → AllIds u → AllIds (push c id u)
unfolding AllIds
push-AllIds none id u small all = all
push-AllIds (some nonlearner) id u small (n, f, l) =
    (All-append IsId u.nonlearners (id ∷ []) n (small, tt), f, l)
push-AllIds (some fluent) id u small (n, f, l) =
    (n, All-append IsId u.fluents (id ∷ []) f (small, tt), l)
push-AllIds (some learner) id u small (n, f, l) =
    (n, f, All-append IsId u.learners (id ∷ []) l (small, tt))

collect-AllIds :
    (ms : List Member) (u : Unnamed) → All (λ m. IsId m.id) ms → AllIds u → AllIds (collect ms u)
unfolding collect
collect-AllIds [] u small all = all
collect-AllIds (m ∷ ms) u (first, small) all = elim (Bool-cases (not (is_empty m.nickname))) [
  | inl named ↦ rw named (collect-AllIds ms u small all)
  | inr unnamed ↦ rw unnamed (
      collect-AllIds ms (push (classify m.roles) m.id u) small
        (push-AllIds (classify m.roles) m.id u first all))
]

-- The members without a nickname that have a proficiency role.
abbrev pub unnamed_of : List Member → Unnamed
unnamed_of members = collect members (record { nonlearners = []; fluents = []; learners = [] })

-- Whoever the members are, the loops that cut the report end, and it is sent in messages of 1 to 2000
-- characters that make up the report with a space between any two of them. The ids are 64-bit integers,
-- and the report fits into memory.
pub process_nicknames_lem :
    (members : List Member)
    → All (λ m. IsId m.id) members
    → length (content_of (unnamed_of members)) < npos
    → (ms : List (List ℕ)) × (process_nicknames true members 0 ≡ some (report ms))
      × (joined ms ≡ content_of (unnamed_of members))
      × All IsSendable ms
unfolding process_nicknames AllIds
process_nicknames_lem members small fits =
    let (spaced, filled) =
      content_of-spaced (unnamed_of members) (collect-AllIds members _ small (tt, tt, tt)) in
    let (ms, sent, same, all) =
      send_chunks_lem (suc (length (content_of (unnamed_of members))))
        (content_of (unnamed_of members)) (omega arith) spaced filled fits in
    (ms, ap (Option.map report) sent, same, all)
