-- ===== src/Records/Tests.antt =====
-- Numbers beyond 2 ^ 53.
use split_bill_app.Prelude.{ℕ}

-- 2 ^ 53 + 1, the first number that is no double.
abbrev odd : ℕ
odd = 9007199254740993
