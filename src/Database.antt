-- ===== src/Database.antt =====
-- `prisma.$transaction`, as far as the repositories of backend/src/modules use it: a parameter, with
-- what Prisma and PostgreSQL document of it.
pub mod Atomic
use split_bill_app.Prelude.{◌≡◌}
use split_bill_app.Errors.{Failure}
use split_bill_app.Effects.{Result, ok, err, Action}

pub record Transactions (Db : Type 0) : Type 1 where
  pub transaction : {A : Type 0} → Action Db A → Action Db A

pub record TransactionRules {Db : Type 0} (transactions : Transactions Db) : Type 1 where
  -- What a transaction returns its callback has returned, and its writes are committed.
  pub commits :
      {A : Type 0} (m : Action Db A) (a : A) (db db' : Db)
      → transactions.transaction m db ≡ (ok a, db')
      → m db ≡ (ok a, db')
  -- A transaction that throws has rolled back.
  pub rolls_back :
      {A : Type 0} (m : Action Db A) (e : Failure) (db db' : Db)
      → transactions.transaction m db ≡ (err e, db')
      → db' ≡ db

-- A read among the calls of a transaction.
abbrev pub reading : {Db A : Type 0} → (Db → Result A) → Action Db A
reading read db = (read db, db)
