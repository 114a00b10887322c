-- ===== src/Keys.antt =====
-- The keys that the code forms in Redis. Each template has a prefix of its own (`lock:`, `cache:`,
-- `job:`) and ends in an id, so a key is a constructor with that id.
use split_bill_app.Prelude.{ℕ}

pub data Key : Type 0 where
  settlement_lock_key group_cache_key : ℕ → Key
