-- ===== src/RateLimit.antt =====
-- `RedisRateLimitStore` (backend/src/redis/rateLimitStore.ts) over the Redis commands that it uses.
-- `now` is the time of the call, also for Redis.
pub mod Window
mod Tests
use split_bill_app.Prelude.{
  ℕ, suc, ◌+◌, ◌-◌, ◌++◌, Option, none, some, Bool, true, false, ◌==◌, leb, if◌then◌else◌,
}
use split_bill_app.Effects.{Result, ok, err, Action, pure, ◌>>=◌, ◌>>◌}
use split_bill_app.Metrics.Table.{Text}

-- INCR, PEXPIRE, DECR and DEL on a key, and PTTL, whose negative answers are `none`. Each may throw.
pub record RateRedis (S : Type 0) : Type 0 where
  pub incr : Text → ℕ → Action S ℕ
  pub pexpire : Text → ℕ → ℕ → Action S (Unit {0})
  pub pttl : Text → ℕ → Action S (Option ℕ)
  pub decr : Text → ℕ → Action S (Unit {0})
  pub del : Text → Action S (Unit {0})

pub record IncrementResponse : Type 0 where
  pub total_hits : ℕ
  pub reset_time : Option ℕ

abbrev pub reset_at : ℕ → Option ℕ → Option ℕ
reset_at now none = none
reset_at now (some ttl_ms) = some (now + ttl_ms)

module _ {S : Type 0} (redis : RateRedis S) (prefix : Text) (window_ms now : ℕ) where
  open redis use {incr, pexpire, pttl, decr, del}

  abbrev pub full_key : Text → Text
  full_key key = prefix ++ key

  abbrev pub start_window : Text → ℕ → Action S (Unit {0})
  start_window key hits = elim (hits == 1) [ true ↦ pexpire key window_ms now | false ↦ pure tt ]

  -- INCREMENT_SCRIPT
  unfoldable pub increment_script : Text → Action S (ℕ × Option ℕ)
  increment_script key = do
    hits ← incr key now
    start_window key hits
    ttl ← pttl key now
    pure (hits, ttl)

  -- A failure is logged and thrown again.
  unfoldable pub increment : Text → Action S IncrementResponse
  increment key = do
    answer ← increment_script (full_key key)
    pure (record { total_hits = answer.0; reset_time = reset_at now answer.1 })

  unfoldable pub decrement : Text → Action S (Unit {0})
  decrement key = decr (full_key key) now

  unfoldable pub reset_key : Text → Action S (Unit {0})
  reset_key key = del (full_key key)
