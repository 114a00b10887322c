-- ===== src/Lock/Tests.antt =====
-- A Redis that keeps its cells in a function and never fails: it has the laws that the lock asks
-- for, and the lock runs on it.
use split_bill_app.Prelude.{
  ℕ, ◌≡◌, ◌≢◌, refl, ◌⊎◌, [], Option, none, some, Bool, true, false, ◌==◌, if◌then◌else◌, arith,
}
use split_bill_app.Errors.{infrastructure}
use split_bill_app.Keys.{Key, settlement_lock_key, group_cache_key}
use split_bill_app.Effects.{ok, Action, throw, World}
use split_bill_app.Lock.{RedisLike, RedisLaws, release, release_script, acquire, with_lock}
use split_bill_app.Lock.Laws.{Locked, release_only_owner, with_lock-Locked}

abbrev pub Cells : Type 0
Cells = Key → Option ℕ

abbrev same_key : Key → Key → Bool
same_key (settlement_lock_key a) (settlement_lock_key b) = a == b
same_key (group_cache_key a) (group_cache_key b) = a == b
same_key a b = false

same_key_refl : (k : Key) → same_key k k ≡ true
same_key_refl (settlement_lock_key a) = ground arith
same_key_refl (group_cache_key a) = ground arith

same_key_sound : (j k : Key) → same_key j k ≡ true → j ≡ k
same_key_sound (settlement_lock_key a) (settlement_lock_key b) h = ground arith
same_key_sound (settlement_lock_key a) (group_cache_key b) h = absurd (ground arith)
same_key_sound (group_cache_key a) (settlement_lock_key b) h = absurd (ground arith)
same_key_sound (group_cache_key a) (group_cache_key b) h = ground arith

abbrev put : Key → Option ℕ → World Cells → World Cells
put k o w = record w { db = λ j. if same_key j k then o else w.db j }

abbrev set_if_free : Key → ℕ → Option ℕ → Action (World Cells) Bool
set_if_free k token none w = (ok true, put k (some token) w)
set_if_free k token (some owner) w = (ok false, w)

abbrev pub cells_redis : RedisLike (World Cells)
cells_redis = record {
  set_nx = λ k token ttl w. set_if_free k token (w.db k) w;
  get = λ k w. (ok (w.db k), w);
  del = λ k w. (ok 1, put k none w);
  cell = λ k w. w.db k;
}

set_nx_sets_lem :
    (k : Key) (token : ℕ) (o : Option ℕ) (w w' : World Cells)
    → w.db k ≡ o
    → set_if_free k token o w ≡ (ok true, w')
    → (w.db k ≡ none) × (w'.db k ≡ some token)
set_nx_sets_lem k token none w w' e h =
    let end : w' ≡ put k (some token) w = ground arith in
    (e, rw end (ground (arith, same_key_refl k)))
set_nx_sets_lem k token (some x) w w' e h = absurd (ground arith)

set_nx_refuses_lem :
    (k : Key) (token : ℕ) (o : Option ℕ) (w w' : World Cells)
    → w.db k ≡ o
    → set_if_free k token o w ≡ (ok false, w')
    → (w.db k ≢ none) × (w' ≡ w)
set_nx_refuses_lem k token none w w' e h = absurd (ground arith)
set_nx_refuses_lem k token (some x) w w' e h = (λ free. ground arith, ground arith)

other_key : (j k : Key) → j ≢ k → same_key j k ≡ false
other_key j k other = ground (arith, same_key_sound j k)

pub cells_redis-RedisLaws : RedisLaws cells_redis
cells_redis-RedisLaws = record {
  set_nx_sets = λ k token ttl w w' h. set_nx_sets_lem k token (w.db k) w w' refl h;
  set_nx_refuses = λ k token ttl w w' h. set_nx_refuses_lem k token (w.db k) w w' refl h;
  get_reads = λ k o w w' h. (ground arith, ground arith);
  del_removes = λ k n w w' h.
      let end : w' ≡ put k none w = ground arith in rw end (ground (arith, same_key_refl k));
  del_keeps = λ k j n w w' other h.
      let end : w' ≡ put k none w = ground arith in rw end (ground (arith, other_key j k other));
}

abbrev pub lock_key : Key
lock_key = settlement_lock_key 7

-- Nothing is locked; and group 7 is locked under the token 1.
abbrev pub free : World Cells
free = record { db = λ k. none; metrics = [] }

abbrev pub locked : World Cells
locked = put lock_key (some 1) free

abbrev answer : Action (World Cells) ℕ
answer w = (ok 42, w)

release_runs : release cells_redis 10000 lock_key 1 locked ≡ (ok true, put lock_key none locked)
unfolding release release_script
release_runs = refl

release_only_owner_example :
    (cells_redis.cell lock_key (put lock_key none locked) ≢ some 1)
    × ((cells_redis.cell lock_key locked ≡ some 1)
        ⊎ (cells_redis.cell lock_key (put lock_key none locked) ≡ cells_redis.cell lock_key locked))
release_only_owner_example =
    release_only_owner cells_redis cells_redis-RedisLaws 10000 lock_key 1 true locked
      (put lock_key none locked) release_runs

-- A Redis whose writes time out.
abbrev down : RedisLike (World Cells)
down = record cells_redis { set_nx = λ k token ttl. throw (infrastructure 0) }

down-RedisLaws : RedisLaws down
down-RedisLaws = record {
  set_nx_sets = λ k token ttl w w' h. absurd (ground arith);
  set_nx_refuses = λ k token ttl w w' h. absurd (ground arith);
  get_reads = cells_redis-RedisLaws.get_reads;
  del_removes = cells_redis-RedisLaws.del_removes;
  del_keeps = cells_redis-RedisLaws.del_keeps;
}

lock_run : with_lock cells_redis 10000 lock_key 1 answer free ≡ (ok 42, put lock_key none locked)
unfolding with_lock acquire release release_script
lock_run = refl

with_lock-Locked_example :
    Locked cells_redis 10000 lock_key 1 answer free 42 (put lock_key none locked)
with_lock-Locked_example =
    with_lock-Locked cells_redis cells_redis-RedisLaws 10000 lock_key 1 answer free 42
      (put lock_key none locked) lock_run
