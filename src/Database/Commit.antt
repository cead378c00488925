-- ===== src/Database/Commit.antt =====
-- What a commit that succeeds has done, and what one that gives up leaves.
use greek_bot.Prelude.{
  ◌≡◌, true, false, if◌then◌else◌, refl, sym, subst, ℕ, some, suc, ◌∙◌, Bool-cases, inl, zero, inr,
  arith, some_inj,
}
use greek_bot.Database.Sqlite.{Code, ok, busy, other_code, Sqlite}
use greek_bot.Database.Transaction.{
  commit_impl, close_transaction, commit_transaction, retry_commit, rollback_impl, kept_if,
}

module _ {World Data : Type 0} (S : Sqlite World Data) where
  open S use {
    autocommit, saved, seen, commit, rollback, wait, committed, commit_busy, rolled_back, still,
    unseen,
  }

  -- From a transaction that sees d: either it is saved and over, or it is open as before.
  unfoldable pub IsCommit : Data → World × Code → Type 0
  IsCommit d (w, ok) = (autocommit w ≡ true) × (saved w ≡ d)
  IsCommit d (w, busy) = (autocommit w ≡ false) × (seen w ≡ d)
  IsCommit d (w, other_code e) = Unit

  commit_impl-IsCommit : (w : World) → autocommit w ≡ false → IsCommit (seen w) (commit_impl S w)
  unfolding commit_impl IsCommit
  commit_impl-IsCommit w a =
      subst (λ b. IsCommit (seen w) (if b then (w, ok) else commit w)) (sym a)
        (judged (commit w).1 refl)
    where
      judged : (e : Code) → (commit w).1 ≡ e → IsCommit (seen w) ((commit w).0, e)
      judged ok p = committed w a p
      judged busy p = commit_busy w a p
      judged (other_code e) p = tt

  retry_commit-IsCommit :
      (n : ℕ) (w : World) (e : Code) (d : Data)
      → IsCommit d (w, e)
      → IsCommit d (retry_commit S n w e)
  unfolding retry_commit IsCommit
  retry_commit-IsCommit zero w e d h = h
  retry_commit-IsCommit (suc n) w ok d h = h
  retry_commit-IsCommit (suc n) w (other_code e) d h = h
  retry_commit-IsCommit (suc n) w busy d (open_still, same) =
      retry_commit-IsCommit n (commit_impl S (wait w)).0 (commit_impl S (wait w)).1 d (
        subst (λ x. IsCommit x (commit_impl S (wait w))) (unseen w open_still ∙ same)
          (commit_impl-IsCommit (wait w) (still w ∙ open_still)))

  -- Of an open transaction: if Commit succeeds it is over and what it did is saved; if the database
  -- stays busy through all attempts it is open as before.
  pub commit_transaction_lem :
      (w : World) → autocommit w ≡ false → IsCommit (seen w) (commit_transaction S w)
  unfolding commit_transaction
  commit_transaction_lem w a =
      retry_commit-IsCommit 100 (commit_impl S w).0 (commit_impl S w).1 (seen w)
        (commit_impl-IsCommit w a)

  rollback_impl_lem :
      (w : World)
      → (rollback_impl S w).1 ≡ ok
      → (autocommit (rollback_impl S w).0 ≡ true)
        × (autocommit w ≡ false → saved (rollback_impl S w).0 ≡ saved w)
  unfolding rollback_impl
  rollback_impl_lem w = elim (Bool-cases (autocommit w)) [
    | inl idle ↦ rw (idle, rollback_impl) (λ q. (idle, λ p. absurd (ground (arith, p))))
    | inr active ↦
        rw (active, rollback_impl)
          (λ q. ((rolled_back w active q).0, λ p. (rolled_back w active q).1))
  ]

  kept_ok : (w kept : World) (e : Code) → kept_if S w e ≡ some kept → (e ≡ ok) × (w ≡ kept)
  kept_ok w kept ok q = (refl, some_inj q)
  kept_ok w kept busy q = absurd (ground (arith, q))
  kept_ok w kept (other_code e) q = absurd (ground (arith, q))

  -- The connection that Close keeps has no open transaction, and if there was one then the database
  -- is as it was saved before it.
  close_transaction-IsIdle :
      (w kept : World)
      → close_transaction S w ≡ some kept
      → (autocommit kept ≡ true) × (autocommit w ≡ false → saved kept ≡ saved w)
  unfolding close_transaction rollback_impl
  close_transaction-IsIdle w kept q =
      let (fine, same) = kept_ok (rollback_impl S w).0 kept (rollback_impl S w).1 q in
      subst (λ k. (autocommit k ≡ true) × (autocommit w ≡ false → saved k ≡ saved w)) same
        (rollback_impl_lem w fine)
