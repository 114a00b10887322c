-- ===== src/Lock.antt =====
-- backend/src/redis/distributedLock.ts over the commands of Redis that it uses.
pub mod Laws
pub mod Tests
use split_bill_app.Prelude.{ℕ, ◌≡◌, ◌≢◌, Option, none, some, Bool, true, false, ◌==◌, if◌then◌else◌}
use split_bill_app.Errors.{lock_conflict}
use split_bill_app.Keys.{Key}
use split_bill_app.Effects.{Result, ok, err, Action, pure, ◌>>=◌, ◌>>◌}

-- The client, over a state that holds the data of Redis among other things: `SET key token PX ttl NX`
-- (was it set?), `GET` and `DEL` (the number of keys removed). Any of them can throw. `cell` is the
-- value that a key has in a state; an expired key has none.
pub record RedisLike (S : Type 0) : Type 0 where
  pub set_nx : Key → ℕ → ℕ → Action S Bool
  pub get : Key → Action S (Option ℕ)
  pub del : Key → Action S ℕ
  pub cell : Key → S → Option ℕ

-- What Redis documents of these commands, when they succeed.
pub record RedisLaws {S : Type 0} (redis : RedisLike S) : Type 0 where
  pub set_nx_sets :
      (k : Key) (token ttl : ℕ) (s s' : S)
      → redis.set_nx k token ttl s ≡ (ok true, s')
      → (redis.cell k s ≡ none) × (redis.cell k s' ≡ some token)
  pub set_nx_refuses :
      (k : Key) (token ttl : ℕ) (s s' : S)
      → redis.set_nx k token ttl s ≡ (ok false, s')
      → (redis.cell k s ≢ none) × (s' ≡ s)
  pub get_reads :
      (k : Key) (o : Option ℕ) (s s' : S)
      → redis.get k s ≡ (ok o, s')
      → (o ≡ redis.cell k s) × (s' ≡ s)
  pub del_removes :
      (k : Key) (n : ℕ) (s s' : S) → redis.del k s ≡ (ok n, s') → redis.cell k s' ≡ none
  pub del_keeps :
      (k j : Key) (n : ℕ) (s s' : S)
      → j ≢ k
      → redis.del k s ≡ (ok n, s')
      → redis.cell j s' ≡ redis.cell j s

abbrev pub owned_by : ℕ → Option ℕ → Bool
owned_by token none = false
owned_by token (some owner) = owner == token

module _ {S : Type 0} (redis : RedisLike S) (ttl_ms : ℕ) where
  -- `token` is the `randomUUID()` of the call.
  unfoldable pub acquire : Key → ℕ → Action S (Option ℕ)
  acquire key token = do
    set ← redis.set_nx key token ttl_ms
    pure (if set then some token else none)

  -- The Lua script RELEASE_SCRIPT, which Redis runs without interleaving.
  unfoldable pub release_script : Key → ℕ → Action S ℕ
  release_script key token = do
    owner ← redis.get key
    if owned_by token owner then redis.del key else pure 0

  unfoldable pub release : Key → ℕ → Action S Bool
  unfolding release_script
  release key token = do released ← release_script key token; pure (released == 1)

  -- After the `finally` block the result of the operation stands, also when the release throws.
  abbrev pub finish : {A : Type 0} → Key → ℕ → Result A × S → Result A × S
  finish key token (result, s) = (result, (release key token s).1)

  -- The three ways on from `acquire`: it threw (run without coordination), the lock is held by
  -- another (refuse), or it was acquired.
  abbrev pub after_acquire :
      {A : Type 0} → Key → ℕ → Action S A → Result (Option ℕ) × S → Result A × S
  after_acquire key token operation (err e, s) = operation s
  after_acquire key token operation (ok none, s) = (err (lock_conflict key), s)
  after_acquire key token operation (ok (some mine), s) = finish key mine (operation s)

  unfoldable pub with_lock : {A : Type 0} → Key → ℕ → Action S A → Action S A
  unfolding acquire release
  with_lock key token operation s = after_acquire key token operation (acquire key token s)
