-- ===== src/Lock/Laws.antt =====
-- What `withLock` promises about its operation and about the lock.
use split_bill_app.Prelude.{ℕ, ◌≡◌, ◌≢◌, ◌⊎◌, inl, inr, none, some, refl, Bool, true, false, arith}
use split_bill_app.Errors.{Failure, lock_conflict}
use split_bill_app.Keys.{Key}
use split_bill_app.Effects.{ok, err, Action}
use split_bill_app.Effects.Inversion.{Write-cases}
use split_bill_app.Lock.{RedisLike, RedisLaws, release, release_script, with_lock}

module _ {S : Type 0} (redis : RedisLike S) (laws : RedisLaws redis) (ttl_ms : ℕ) where
  -- One run of the script, by what `GET` returned and what `DEL` did.
  release_script_lem :
      (key : Key) (token n : ℕ) (s s' : S)
      → release_script redis ttl_ms key token s ≡ (ok n, s')
      → (redis.cell key s' ≢ some token)
        × ((redis.cell key s ≡ some token) ⊎ (redis.cell key s' ≡ redis.cell key s))
  unfolding release_script
  release_script_lem key token n s s' h = elim (Write-cases (redis.get key s)) [
    | inr (e, t, failed) ↦ absurd (ground arith)
    | inl (none, t, got) ↦ ground (arith, laws.get_reads key none s t)
    | inl (some owner, t, got) ↦ elim (Write-cases (redis.del key t)) [
      | inr (e, u, failed) ↦ ground (arith, laws.get_reads key (some owner) s t)
      | inl (m, u, removed) ↦
          ground (arith, laws.get_reads key (some owner) s t, laws.del_removes key m t u)
    ]
  ]

  release_script_of_release :
      (key : Key) (token : ℕ) (b : Bool) (s s' : S)
      → release redis ttl_ms key token s ≡ (ok b, s')
      → (n : ℕ) × (release_script redis ttl_ms key token s ≡ (ok n, s'))
  unfolding release
  release_script_of_release key token b s s' h =
      elim (Write-cases (release_script redis ttl_ms key token s)) [
        | inl (n, t, ran) ↦ (n, ground arith)
        | inr (e, t, failed) ↦ absurd (ground arith)
      ]

  -- A release that Redis carries out takes the lock from its owner only: afterwards the token does
  -- not own the key, and either it owned the key before or the key is as it was.
  pub release_only_owner :
      (key : Key) (token : ℕ) (b : Bool) (s s' : S)
      → release redis ttl_ms key token s ≡ (ok b, s')
      → (redis.cell key s' ≢ some token)
        × ((redis.cell key s ≡ some token) ⊎ (redis.cell key s' ≡ redis.cell key s))
  release_only_owner key token b s s' h =
      let (n, ran) = release_script_of_release key token b s s' h in
      release_script_lem key token n s s' ran

-- What has happened when `withLock` has returned `a`: the operation returned it. Either it began
-- when the key, free before, was the token's, and the release ran after it; or Redis threw and it ran
-- without the lock.
pub record Locked {S A : Type 0} (redis : RedisLike S) (ttl_ms : ℕ) (key : Key) (token : ℕ)
    (operation : Action S A) (s : S) (a : A) (t' : S) : Type 0 where
  pub began : S
  pub ended : S
  pub ran : operation began ≡ (ok a, ended)
  pub coordinated :
      ((redis.set_nx key token ttl_ms s ≡ (ok true, began))
        × (redis.cell key s ≡ none)
        × (redis.cell key began ≡ some token)
        × (t' ≡ (release redis ttl_ms key token ended).1))
      ⊎ ((e : Failure) × (redis.set_nx key token ttl_ms s ≡ (err e, began)) × (t' ≡ ended))

module _ {S A : Type 0} (redis : RedisLike S) (laws : RedisLaws redis) (ttl_ms : ℕ) (key : Key)
    (token : ℕ) (operation : Action S A) (s : S) where
  -- While another holds the lock the operation does not run: the call throws the conflict and
  -- nothing has changed.
  pub with_lock_held :
      (s' : S)
      → redis.set_nx key token ttl_ms s ≡ (ok false, s')
      → with_lock redis ttl_ms key token operation s ≡ (err (lock_conflict key), s)
  unfolding with_lock
  with_lock_held s' held = ground (arith, laws.set_nx_refuses key token ttl_ms s s')

  -- If Redis cannot be reached for the lock, the operation runs all the same.
  pub with_lock_unavailable :
      (e : Failure) (s' : S)
      → redis.set_nx key token ttl_ms s ≡ (err e, s')
      → with_lock redis ttl_ms key token operation s ≡ operation s'
  unfolding with_lock
  with_lock_unavailable e s' failed = ground arith

  -- If `withLock` returns, then its operation has returned the same, and either it began when the
  -- key, free before, was the token's, and the release ran after it; or Redis threw when the lock was
  -- asked for, and the operation ran without it.
  pub with_lock-Locked :
      (a : A) (t' : S)
      → with_lock redis ttl_ms key token operation s ≡ (ok a, t')
      → Locked redis ttl_ms key token operation s a t'
  unfolding with_lock
  with_lock-Locked a t' h = elim (Write-cases (redis.set_nx key token ttl_ms s)) [
    | inl (false, b, held) ↦ absurd (ground arith)
    | inl (true, b, set) ↦ record {
      began = b;
      ended = (operation b).1;
      ran = ground arith;
      coordinated =
          let (free, mine) = laws.set_nx_sets key token ttl_ms s b set in
          inl (set, free, mine, ground arith);
    }
    | inr (e, b, failed) ↦ record {
      began = b;
      ended = t';
      ran = ground arith;
      coordinated = inr (e, failed, refl);
    }
  ]
