-- ===== src/Database/Examples.antt =====
-- A database of one number that another connection locks for a while.
use greek_bot.Prelude.{
  ℕ, ◌-◌, ◌+◌, ◌≡◌, Bool, true, false, not, some, if◌then◌else◌, refl, ◌==◌, arith,
}
use greek_bot.Database.Sqlite.{ok, busy, Sqlite}
use greek_bot.Database.Transaction.{commit_transaction, close_transaction}
use greek_bot.Database.Commit.{IsCommit, commit_transaction_lem}
use greek_bot.Database.Exec.{Attempt, returned, thrown, exec, exec_loses_transaction}

record Disk : Type 0 where
  active : Bool
  disk : ℕ
  mine : ℕ
  locked : ℕ

abbrev sees : Disk → ℕ
sees w = if w.active then w.mine else w.disk

abbrev number : Sqlite Disk ℕ
number = record {
  autocommit = λ w. not w.active;
  saved = λ w. w.disk;
  seen = sees;
  begin = λ w. (record w { active = true; mine = w.disk }, ok);
  commit =
      λ w. if w.locked == 0 then (record w { active = false; disk = sees w }, ok) else (w, busy);
  rollback = λ w. (record w { active = false }, ok);
  wait = λ w. record w { locked = w.locked - 1 };
  begun = λ w a q. refl;
  not_begun = λ w a q. absurd (q refl);
  committed = λ w a q. ground (arith, a, q);
  commit_busy = λ w a q. ground (arith, a, q);
  rolled_back = λ w a q. ground (arith, a, q);
  still = λ w. refl;
  unseen = λ w a. refl;
}

-- A transaction that has changed 4 to 5, while another connection is in the way for two waits.
abbrev changed : Disk
changed = record { active = true; disk = 4; mine = 5; locked = 2 }

commit_transaction_lem_example : IsCommit number 5 (commit_transaction number changed)
commit_transaction_lem_example = commit_transaction_lem number changed refl

-- It adds 10, unless the database is locked.
abbrev add_ten : Disk → Disk × Attempt ℕ
add_ten w =
    if w.locked == 0
    then (
      if w.active then record w { mine = w.mine + 10 } else record w { disk = w.disk + 10 },
      returned 10,
    )
    else (w, thrown busy)

abbrev locked_once : Disk
locked_once = record changed { locked = 1 }

-- The 5 that the transaction had written is lost, and the 14 stays.
exec_loses_transaction_example :
    (exec number add_ten locked_once
      ≡ (record { active = false; disk = 14; mine = 5; locked = 0 }, returned 10))
    × (sees (record locked_once { active = false }) ≡ 4)
    × (commit_transaction number (record { active = false; disk = 14; mine = 5; locked = 0 })
        ≡ (record { active = false; disk = 14; mine = 5; locked = 0 }, ok))
    × (close_transaction number (record { active = false; disk = 14; mine = 5; locked = 0 })
        ≡ some (record { active = false; disk = 14; mine = 5; locked = 0 }))
exec_loses_transaction_example =
    exec_loses_transaction number add_ten locked_once locked_once
      (record locked_once { active = false })
      (record { active = false; disk = 14; mine = 5; locked = 0 }) 10 refl refl refl refl refl
