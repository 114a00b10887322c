-- ===== src/Idempotency/Tests.antt =====
-- The rule for a repeated Idempotency-Key on one stored record.
use split_bill_app.Prelude.{ℕ, ◌<◌, ◌≡◌, ◌↔◌, some}
use split_bill_app.Effects.{ok}
use split_bill_app.Idempotency.{
  IdempotencyContext, IdempotencyRecord, completed, replay, reconcile_idempotency_record,
}
use split_bill_app.Idempotency.Laws.{reconcile-eq-replay_iff}

abbrev stored : IdempotencyRecord
stored = record {
  id = 1;
  key = 10;
  user_id = 2;
  request_hash = 33;
  status = completed;
  resource_id = some 5;
  expires_at = 1000;
}

abbrev asked_by : ℕ → IdempotencyContext
asked_by user_id = record { key = 10; user_id = user_id; request_hash = 33 }

reconcile-eq-replay_iff_example :
    (reconcile_idempotency_record stored (asked_by 2) 999 ≡ ok replay) ↔ (
      (stored.user_id ≡ (asked_by 2).user_id)
      × (999 < 1000)
      × (stored.request_hash ≡ (asked_by 2).request_hash)
      × (completed ≡ completed)
      × (resource : ℕ) × (some 5 ≡ some resource))
reconcile-eq-replay_iff_example = reconcile-eq-replay_iff stored (asked_by 2) 999
