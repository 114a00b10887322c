-- ===== src/Effects/Inversion.antt =====
-- Runs taken apart: the two ways in which a call ends, and methods that leave their state alone
-- when they throw.
use split_bill_app.Prelude.{
  ◌≡◌, refl, ◌⊎◌, inl, inr, Bool, true, false, Option, none, some, arith, ◌∙◌,
}
use split_bill_app.Errors.{Failure}
use split_bill_app.Effects.{
  Result, ok, err, Action, pure, throw, lift, or_throw, require, ◌>>=◌, ◌>>◌, World, query, command,
  increment, Metric,
}

pub Result-cases :
    {A : Type 0} (r : Result A) → ((a : A) × (r ≡ ok a)) ⊎ ((e : Failure) × (r ≡ err e))
Result-cases (ok a) = inl (a, refl)
Result-cases (err e) = inr (e, refl)

pub Write-cases :
    {A S : Type 0} (r : Result A × S)
    → ((a : A) × (s : S) × (r ≡ (ok a, s))) ⊎ ((e : Failure) × (s : S) × (r ≡ (err e, s)))
Write-cases (ok a, s) = inl (a, s, refl)
Write-cases (err e, s) = inr (e, s, refl)

-- A method that throws has left its state as it found it.
unfoldable pub KeepsOnFailure : {S A : Type 0} → Action S A → Type 0
KeepsOnFailure {S} m = (s s' : S) (e : Failure) → m s ≡ (err e, s') → s' ≡ s

-- A method that never throws.
unfoldable pub Returns : {S A : Type 0} → Action S A → Type 0
Returns {S} m = (s s' : S) (e : Failure) → ¬ (m s ≡ (err e, s'))

pub keeps_state :
    {S A : Type 0} (m : Action S A)
    → KeepsOnFailure m
    → (s s' : S) (e : Failure) → m s ≡ (err e, s')
    → s' ≡ s
unfolding KeepsOnFailure
keeps_state m h = h

pub pure-Returns : (S : Type 0) {A : Type 0} (a : A) → Returns (pure {S = S} a)
unfolding Returns
pure-Returns S a s s' e h = cc

pub pure-KeepsOnFailure : (S : Type 0) {A : Type 0} (a : A) → KeepsOnFailure (pure {S = S} a)
unfolding KeepsOnFailure
pure-KeepsOnFailure S a s s' e h = cc

pub throw-KeepsOnFailure : (S A : Type 0) (e : Failure) → KeepsOnFailure (throw {S = S} {A = A} e)
unfolding KeepsOnFailure
throw-KeepsOnFailure S A x s s' e h = ground arith

pub or_throw_last-KeepsOnFailure :
    (S : Type 0) {A : Type 0} (o : Option A) (x : Failure) → KeepsOnFailure (or_throw {S = S} o x)
unfolding KeepsOnFailure
or_throw_last-KeepsOnFailure S o x s s' e h = ground arith

module _ {S A B : Type 0} where
  pub lift-KeepsOnFailure :
      (r : Result A) (f : A → Action S B)
      → ((a : A) → KeepsOnFailure (f a))
      → KeepsOnFailure (lift r >>= f)
  unfolding KeepsOnFailure
  lift-KeepsOnFailure (ok a) f k s s' e h = k a s s' e h
  lift-KeepsOnFailure (err x) f k s s' e h = cc

  pub or_throw-KeepsOnFailure :
      (o : Option A) (x : Failure) (f : A → Action S B)
      → ((a : A) → KeepsOnFailure (f a))
      → KeepsOnFailure (or_throw o x >>= f)
  unfolding KeepsOnFailure
  or_throw-KeepsOnFailure none x f k s s' e h = cc
  or_throw-KeepsOnFailure (some a) x f k s s' e h = k a s s' e h

-- A method that only reads.
unfoldable pub ReadsOnly : {S A : Type 0} → Action S A → Type 0
ReadsOnly {S} m = (s : S) → (m s).1 ≡ s

module _ {S A B : Type 0} where
  reads_then :
      (r : Result A × S) (f : A → Action S B) (s : S) {s' : S} {e : Failure}
      → r.1 ≡ s
      → ((a : A) → KeepsOnFailure (f a))
      → ((λ _. r) >>= f) s ≡ (err e, s')
      → s' ≡ s
  unfolding KeepsOnFailure
  reads_then (ok a, t) f s same k h = k a t _ _ h ∙ same
  reads_then (err x, t) f s same k h = ground arith

  pub reads-KeepsOnFailure :
      (m : Action S A) (f : A → Action S B)
      → ReadsOnly m
      → ((a : A) → KeepsOnFailure (f a))
      → KeepsOnFailure (m >>= f)
  unfolding KeepsOnFailure ReadsOnly
  reads-KeepsOnFailure m f only k s s' e h = reads_then (m s) f s (only s) k h

module _ {S B : Type 0} where
  pub require-KeepsOnFailure :
      (t : Bool) (x : Failure) (m : Action S B)
      → KeepsOnFailure m
      → KeepsOnFailure (require t x >> m)
  unfolding KeepsOnFailure
  require-KeepsOnFailure true x m k s s' e h = k s s' e h
  require-KeepsOnFailure false x m k s s' e h = cc

module _ {Db A : Type 0} where
  -- A write whose transaction rolls back: a failed one leaves the store as it was.
  abbrev pub RollsBack : (Db → Result A × Db) → Type 0
  RollsBack write = (db db' : Db) (e : Failure) → write db ≡ (err e, db') → db' ≡ db

  pub increment-Returns :
      (metric : Metric) (m : Action (World Db) A) → Returns m → Returns (increment metric >> m)
  unfolding Returns
  increment-Returns metric m k s s' e h = k _ s' e h

pub counted-Returns : (Db : Type 0) (metric : Metric) → Returns (increment {Db = Db} metric)
unfolding Returns
counted-Returns Db metric s s' e h = cc

module _ {Db A B : Type 0} where
  pub query-KeepsOnFailure :
      (read : Db → Result A) (f : A → Action (World Db) B)
      → ((a : A) → KeepsOnFailure (f a))
      → KeepsOnFailure (query read >>= f)
  unfolding KeepsOnFailure
  query-KeepsOnFailure read f k w w' e h = elim (Result-cases (read w.db)) [
    | inl (a, found) ↦ k a w w' e (rw found at h)
    | inr (x, failed) ↦ ground arith
  ]

  command_fails :
      (r : Result A × Db) (f : A → Action (World Db) B) (w w' : World Db) (e : Failure)
      → ((db' : Db) (x : Failure) → r ≡ (err x, db') → db' ≡ w.db)
      → ((a : A) → Returns (f a))
      → (command (λ _. r) >>= f) w ≡ (err e, w')
      → w' ≡ w
  unfolding Returns
  command_fails (ok a, db') f w w' e back k h = absurd (k a (record w { db = db' }) w' e h)
  command_fails (err x, db') f w w' e back k h = ground (arith, back db' x)

  pub command-KeepsOnFailure :
      (write : Db → Result A × Db) (f : A → Action (World Db) B)
      → RollsBack write
      → ((a : A) → Returns (f a))
      → KeepsOnFailure (command write >>= f)
  unfolding KeepsOnFailure
  command-KeepsOnFailure write f back k w w' e h =
      command_fails (write w.db) f w w' e (back w.db) k h

pub ruleset keeps_rules = (
  throw-KeepsOnFailure, or_throw_last-KeepsOnFailure, pure-KeepsOnFailure, lift-KeepsOnFailure,
  or_throw-KeepsOnFailure, require-KeepsOnFailure, query-KeepsOnFailure, reads-KeepsOnFailure,
  command-KeepsOnFailure, pure-Returns, increment-Returns, counted-Returns,
)
