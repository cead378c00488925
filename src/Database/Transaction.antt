-- ===== src/Database/Transaction.antt =====
-- Database/Database.cpp: `refTransaction`, whose connection is not null, and the connection that is
-- kept for the next transaction.
use greek_bot.Prelude.{ℕ, zero, suc, Option, none, some, if◌then◌else◌}
use greek_bot.Database.Sqlite.{Code, ok, busy, other_code, Sqlite}

module _ {World Data : Type 0} (S : Sqlite World Data) where
  open S use {autocommit, begin, commit, rollback, wait}

  -- `begin_impl`, `commit_impl` and `rollback_impl`.
  unfoldable pub begin_impl : World → World × Code
  begin_impl w = if autocommit w then begin w else (w, ok)

  unfoldable pub commit_impl : World → World × Code
  commit_impl w = if autocommit w then (w, ok) else commit w

  unfoldable pub rollback_impl : World → World × Code
  rollback_impl w = if autocommit w then (w, ok) else rollback w

  -- The loop of `Begin` with the attempts that are left: a busy database is rolled back and tried
  -- again after a while, and an error of the rollback ends it.
  unfoldable pub retry_begin : ℕ → World → Code → World × Code
  unfolding begin_impl rollback_impl
  retry_begin zero w e = (w, e)
  retry_begin (suc n) w ok = (w, ok)
  retry_begin (suc n) w (other_code e) = (w, other_code e)
  retry_begin (suc n) w busy =
      let (back, e) = rollback_impl w in
      let (next, f) = begin_impl (wait back) in
      let rest = retry_begin n next f in
      elim e [ ok ↦ rest | busy ↦ (back, busy) | other_code c ↦ (back, other_code c) ]

  unfoldable pub begin_transaction : World → World × Code
  unfolding retry_begin begin_impl
  begin_transaction w = let (next, e) = begin_impl w in retry_begin 100 next e

  -- The loop of `Commit`, which does not roll back.
  unfoldable pub retry_commit : ℕ → World → Code → World × Code
  unfolding commit_impl
  retry_commit zero w e = (w, e)
  retry_commit (suc n) w ok = (w, ok)
  retry_commit (suc n) w (other_code e) = (w, other_code e)
  retry_commit (suc n) w busy = let (next, f) = commit_impl (wait w) in retry_commit n next f

  unfoldable pub commit_transaction : World → World × Code
  unfolding retry_commit commit_impl
  commit_transaction w = let (next, e) = commit_impl w in retry_commit 100 next e

  -- `Close`: the connection is kept in `dbConn` if the rollback succeeds, and closed otherwise.
  abbrev pub kept_if : World → Code → Option World
  kept_if w ok = some w
  kept_if w busy = none
  kept_if w (other_code e) = none

  unfoldable pub close_transaction : World → Option World
  unfolding rollback_impl
  close_transaction w = kept_if (rollback_impl w).0 (rollback_impl w).1

  -- `dbCreateInstance`: the kept connection, or a new one.
  unfoldable pub create_instance : Option World → World → World
  create_instance none fresh = fresh
  create_instance (some kept) fresh = kept

  -- `ReleaseConnection`.
  unfoldable pub release_connection : World → Option World × Code
  unfolding rollback_impl
  release_connection w = (kept_if (rollback_impl w).0 (rollback_impl w).1, (rollback_impl w).1)
