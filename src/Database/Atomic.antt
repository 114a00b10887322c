-- ===== src/Database/Atomic.antt =====
-- A transaction that keeps the writes of a callback that returns and drops those of one that throws:
-- the runs in the tests use it.
use split_bill_app.Prelude.{◌≡◌, arith}
use split_bill_app.Errors.{Failure}
use split_bill_app.Effects.{Result, ok, err}
use split_bill_app.Database.{Transactions, TransactionRules}

module _ {Db : Type 0} where
  unfoldable pub settle : {A : Type 0} → Db → Result A × Db → Result A × Db
  settle db (ok a, db') = (ok a, db')
  settle db (err e, db') = (err e, db)

  abbrev pub atomic : Transactions Db
  atomic = record { transaction = λ m db. settle db (m db) }

  commits_lem :
      {A : Type 0} (r : Result A × Db) (a : A) (db db' : Db)
      → settle db r ≡ (ok a, db')
      → r ≡ (ok a, db')
  unfolding settle
  commits_lem (ok s, t) a db db' h = h
  commits_lem (err e, t) a db db' h = absurd (ground arith)

  rolls_back_lem :
      {A : Type 0} (r : Result A × Db) (e : Failure) (db db' : Db)
      → settle db r ≡ (err e, db')
      → db' ≡ db
  unfolding settle
  rolls_back_lem (ok s, t) e db db' h = absurd (ground arith)
  rolls_back_lem (err x, t) e db db' h = ground arith

  pub atomic-TransactionRules : TransactionRules atomic
  atomic-TransactionRules = record {
    commits = λ m a db db' h. commits_lem (m db) a db db' h;
    rolls_back = λ m e db db' h. rolls_back_lem (m db) e db db' h;
  }
