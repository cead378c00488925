-- ===== src/Database/Exec.antt =====
-- Database/Database.h: `cBaseDAO::Exec`, through which every operation of a DAO runs.
use greek_bot.Prelude.{ℕ, zero, suc, ◌<◌, ◌≢◌, ◌≡◌, arith, ◌∙◌, ap, false, sym, some, true, refl}
use greek_bot.Database.Sqlite.{Code, ok, busy, other_code, Sqlite}
use greek_bot.Database.Transaction.{
  rollback_impl, commit_transaction, commit_impl, retry_commit, close_transaction,
}

-- What a call of the operation gives: its value, or the exception with a code.
pub data Attempt (A : Type 0) : Type 0 where
  returned : A → Attempt A
  thrown : Code → Attempt A

module _ {World Data A : Type 0} (S : Sqlite World Data) (f : World → World × Attempt A) where
  open S use {autocommit, saved, seen, rollback, wait, rolled_back, still}

  -- What `Exec` does with n calls left after one that gave the result: it ends, or it goes on if the
  -- rollback succeeded.
  abbrev pub proceed : ℕ → World × Attempt A → World × Code → World × Attempt A → World × Attempt A
  proceed n (next, returned a) undone rest = (next, returned a)
  proceed n (next, thrown ok) undone rest = (next, thrown ok)
  proceed n (next, thrown (other_code c)) undone rest = (next, thrown (other_code c))
  proceed zero (next, thrown busy) undone rest = (next, thrown busy)
  proceed (suc n) (next, thrown busy) (back, ok) rest = rest
  proceed (suc n) (next, thrown busy) (back, busy) rest = (back, thrown busy)
  proceed (suc n) (next, thrown busy) (back, other_code c) rest = (back, thrown (other_code c))

  -- After a busy call the transaction is rolled back, if there is one, and f is called again after a
  -- while.
  unfoldable pub exec_left : ℕ → World → World × Attempt A
  unfolding rollback_impl
  exec_left zero w = (w, thrown busy)
  exec_left (suc n) w =
      let undone = rollback_impl S (f w).0 in proceed n (f w) undone (exec_left n (wait undone.0))

  unfoldable pub exec : World → World × Attempt A
  unfolding exec_left
  exec w = exec_left 300 w

  exec_left-busy :
      (n : ℕ) (w next back : World)
      → f w ≡ (next, thrown busy)
      → rollback_impl S next ≡ (back, ok)
      → exec_left (suc (suc n)) w ≡ exec_left (suc n) (wait back)
  unfolding exec_left
  exec_left-busy n w next back called undone =
      ap
        (λ r.
          proceed (suc n) r (rollback_impl S r.0)
            (exec_left (suc n) (wait (rollback_impl S r.0).0)))
        called
      ∙ ap (λ u. proceed (suc n) (next, thrown busy) u (exec_left (suc n) (wait u.0))) undone

  exec_left-done : (n : ℕ) (w : World) → (f w).1 ≢ thrown busy → exec_left (suc n) w ≡ f w
  unfolding exec_left
  exec_left-done n w other = ends (f w) _ _ other
    where
      ends :
          (r : World × Attempt A) (u : World × Code) (rest : World × Attempt A)
          → r.1 ≢ thrown busy
          → proceed n r u rest ≡ r
      ends (next, returned a) u rest other = refl
      ends (next, thrown ok) u rest other = refl
      ends (next, thrown (other_code c)) u rest other = refl
      ends (next, thrown busy) u rest other = absurd (other refl)

  exec_after :
      (n calls : ℕ) (world next back : ℕ → World)
      → n < calls
      → ((i : ℕ)
          → i < n
          → (f (world i) ≡ (next i, thrown busy))
            × (rollback_impl S (next i) ≡ (back i, ok))
            × (world (suc i) ≡ wait (back i)))
      → (f (world n)).1 ≢ thrown busy
      → exec_left calls (world zero) ≡ f (world n)
  exec_after n zero world next back lt calm other = absurd (omega arith)
  exec_after zero (suc c) world next back lt calm other = exec_left-done c (world zero) other
  exec_after (suc n) (suc zero) world next back lt calm other = absurd (omega arith)
  exec_after (suc n) (suc (suc c)) world next back lt calm other =
      let (called, undone, waited) = calm zero (omega arith) in
      exec_left-busy c (world zero) (next zero) (back zero) called undone
      ∙ ap (exec_left (suc c)) (sym waited)
      ∙ exec_after n (suc c) (λ i. world (suc i)) (λ i. next (suc i)) (λ i. back (suc i))
          (omega arith) (λ i lt. calm (suc i) (omega arith)) other

  -- If fewer than 300 calls of an operation find the database busy, each rolled back without error,
  -- and the next call does not, Exec ends as that call does.
  exec_lem :
      (n : ℕ) (world next back : ℕ → World)
      → n < 300
      → ((i : ℕ)
          → i < n
          → (f (world i) ≡ (next i, thrown busy))
            × (rollback_impl S (next i) ≡ (back i, ok))
            × (world (suc i) ≡ wait (back i)))
      → (f (world n)).1 ≢ thrown busy
      → exec (world zero) ≡ f (world n)
  unfolding exec
  exec_lem n world next back lt calm other = exec_after n 300 world next back lt calm other

  -- If an operation within a transaction finds the database busy once, Exec rolls the transaction
  -- back and succeeds outside of it: what was done before is lost, the commit that follows does
  -- nothing, and closing the transaction does not take the operation back.
  pub exec_loses_transaction :
      (w next back done : World) (a : A)
      → f w ≡ (next, thrown busy)
      → autocommit next ≡ false
      → rollback next ≡ (back, ok)
      → f (wait back) ≡ (done, returned a)
      → autocommit done ≡ autocommit (wait back)
      → (exec w ≡ (done, returned a))
        × (seen back ≡ saved next)
        × (commit_transaction S done ≡ (done, ok))
        × (close_transaction S done ≡ some done)
  unfolding exec commit_transaction commit_impl retry_commit close_transaction rollback_impl
  exec_loses_transaction w next back done a called active undone again same = (
    exec_left-busy 298 w next back called (rw (rollback_impl, active) undone)
        ∙ exec_left-done 298 (wait back) (λ p. ground (arith, p, ap (λ x. x.1) again))
        ∙ again,
    ap (λ u. seen u.0) (sym undone) ∙ (rolled_back next active (ap (λ u. u.1) undone)).2,
    rw (commit_transaction, commit_impl, over) refl,
    rw (close_transaction, rollback_impl, over) refl,
  )
    where
      over : autocommit done ≡ true
      over =
          same
          ∙ still back
          ∙ ap (λ u. autocommit u.0) (sym undone)
          ∙ (rolled_back next active (ap (λ u. u.1) undone)).0
