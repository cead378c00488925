-- ===== src/Database/Sqlite.antt =====
-- What the repository relies on of SQLite. A world holds one connection, the database file and
-- whatever else uses it. The statements give the result code, and the laws are those of SQLite's
-- documentation on transactions.
use greek_bot.Prelude.{ℕ, ◌≡◌, ◌≢◌, Bool, true, false}

pub data Code : Type 0 where
  ok : Code
  busy : Code
  other_code : ℕ → Code

-- `autocommit`: no transaction is open; `saved`: the database as other connections see it;
-- `seen`: as this one does; `wait`: 100 ms go by.
pub record Sqlite (World Data : Type 0) : Type 0 where
  pub autocommit : World → Bool
  pub saved : World → Data
  pub seen : World → Data
  pub begin : World → World × Code
  pub commit : World → World × Code
  pub rollback : World → World × Code
  pub wait : World → World
  -- A transaction that was begun is open and has changed nothing; one that was refused is not open.
  pub begun : (w : World) → autocommit w ≡ true → (begin w).1 ≡ ok → autocommit (begin w).0 ≡ false
  pub not_begun :
      (w : World) → autocommit w ≡ true → (begin w).1 ≢ ok → autocommit (begin w).0 ≡ true
  -- A commit saves what the transaction has done; if another connection is in the way the
  -- transaction stays open.
  pub committed :
      (w : World)
      → autocommit w ≡ false
      → (commit w).1 ≡ ok
      → (autocommit (commit w).0 ≡ true) × (saved (commit w).0 ≡ seen w)
  pub commit_busy :
      (w : World)
      → autocommit w ≡ false
      → (commit w).1 ≡ busy
      → (autocommit (commit w).0 ≡ false) × (seen (commit w).0 ≡ seen w)
  -- A rollback takes back what the transaction has done.
  pub rolled_back :
      (w : World)
      → autocommit w ≡ false
      → (rollback w).1 ≡ ok
      → (autocommit (rollback w).0 ≡ true)
        × (saved (rollback w).0 ≡ saved w)
        × (seen (rollback w).0 ≡ saved w)
  -- Waiting neither begins nor ends a transaction, nor changes what an open one sees.
  pub still : (w : World) → autocommit (wait w) ≡ autocommit w
  pub unseen : (w : World) → autocommit w ≡ false → seen (wait w) ≡ seen w
