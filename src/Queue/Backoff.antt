-- ===== src/Queue/Backoff.antt =====
-- The configuration of the queue and its retry delays (backend/src/queues/jobQueue.ts).
use split_bill_app.Prelude.{ℕ, zero, suc, ◌+◌, ◌-◌, ◌*◌, ◌^◌, ◌≤◌, ◌<◌, ◌≡◌, min, arith}
use native.Mathlib.Nat.{pow-suc}

pub record JobQueueConfig : Type 0 where
  pub max_attempts : ℕ
  pub base_backoff_ms : ℕ
  pub max_backoff_ms : ℕ
  pub lease_ms : ℕ
  pub payload_ttl_ms : ℕ

-- `backoffFor`, for an attempt count of at least 1: a job that failed has been attempted.
unfoldable pub backoff_for : JobQueueConfig → ℕ → ℕ
backoff_for config attempts =
    min config.max_backoff_ms (config.base_backoff_ms * 2 ^ (attempts - 1))

power_suc : (n : ℕ) → 0 < n → 2 ^ (n + 1 - 1) ≡ 2 * 2 ^ (n - 1)
power_suc zero positive = absurd (ground arith)
power_suc (suc n) positive =
    let next : suc n + 1 - 1 ≡ suc n = omega arith in
    let same : suc n - 1 ≡ n = omega arith in rw (next, same) (omega (arith, pow-suc 2 n))

-- From the first attempt on: the delay after the first failure is the base, or the cap if that is
-- less; each delay is at most the cap; and the next is the double of this one, or the cap if that is
-- less.
pub backoff_for_doubles :
    (config : JobQueueConfig) (attempts : ℕ)
    → 0 < attempts
    → (backoff_for config 1 ≡ min config.max_backoff_ms config.base_backoff_ms)
      × (backoff_for config attempts ≤ config.max_backoff_ms)
      × (backoff_for config (attempts + 1)
          ≡ min config.max_backoff_ms (2 * backoff_for config attempts))
unfolding backoff_for
backoff_for_doubles config attempts positive =
    (ground arith, ground arith, grind (arith, power_suc attempts positive))
