-- ===== src/Effects.antt =====
-- An asynchronous method as a function of the state that it runs in: it returns or throws, and the
-- state comes back either way, since what was written stays written.
pub mod Inversion
use split_bill_app.Prelude.{List, ◌∷◌, Bool, Option, none, some, if◌then◌else◌}
use split_bill_app.Errors.{Failure}

pub data Result (A : Type 0) : Type 0 where
  ok : A → Result A
  err : Failure → Result A

abbrev pub Action : Type 0 → Type 0 → Type 0
Action S A = S → Result A × S

module _ {S A : Type 0} where
  abbrev pub pure : A → Action S A
  pure a s = (ok a, s)

  abbrev pub throw : Failure → Action S A
  throw e s = (err e, s)

  abbrev pub lift : Result A → Action S A
  lift r s = (r, s)

  -- `if (!x) { throw e; }` on a nullable value
  abbrev pub or_throw : Option A → Failure → Action S A
  or_throw none e s = (err e, s)
  or_throw (some a) e s = (ok a, s)

infixl 5 ◌>>=◌ ◌>>◌
abbrev pub ◌>>=◌ : {S A B : Type 0} → Action S A → (A → Action S B) → Action S B
◌>>=◌ m f s = let (r, s') = m s in elim r [ ok a ↦ f a s' | err e ↦ (err e, s') ]

abbrev pub ◌>>◌ : {S A B : Type 0} → Action S A → Action S B → Action S B
m >> k = m >>= λ _. k

-- `if (!test) { throw e; }`
abbrev pub require : {S : Type 0} → Bool → Failure → Action S (Unit {0})
require test e s = (if test then ok tt else err e, s)

-- The catalogue of counters in backend/src/metrics/registry.ts that the services increment.
pub data Metric : Type 0 where
  users_registered_total groups_created_total expenses_created_total : Metric
  expenses_updated_total expenses_deleted_total settlements_created_total : Metric
  queue_failures_total cache_failures_total : Metric
  background_jobs_succeeded_total background_jobs_failed_total : Metric
  background_jobs_retried_total background_jobs_discarded_total : Metric

-- What a service works on: a store, and the increments made so far, the last one first.
pub record World (Db : Type 0) : Type 0 where
  pub db : Db
  pub metrics : List Metric

module _ {Db : Type 0} where
  abbrev pub increment : Metric → Action (World Db) (Unit {0})
  increment metric w = (ok tt, record w { metrics = metric ∷ w.metrics })

  -- A repository call that only reads, and one that may write.
  abbrev pub query : {A : Type 0} → (Db → Result A) → Action (World Db) A
  query read w = (read w.db, w)

  abbrev pub command : {A : Type 0} → (Db → Result A × Db) → Action (World Db) A
  command write w = let (r, db') = write w.db in (r, record w { db = db' })
