-- ===== src/Idempotency.antt =====
-- backend/src/modules/idempotency/reconcile.ts and idempotency.constants.ts: what a stored record of
-- an Idempotency-Key means for a request that carries the key again.
pub mod Laws
mod Tests
use split_bill_app.Prelude.{ℕ, ◌*◌, Option, none, some, not, leb, ◌==◌, if◌then◌else◌}
use split_bill_app.Errors.{
  app, conflict_error, idempotency_key_reused, idempotency_invalid_state, idempotency_conflict,
}
use split_bill_app.Effects.{Result, ok, err}

abbrev pub idempotency_record_ttl_ms : ℕ
idempotency_record_ttl_ms = 24 * 60 * 60 * 1000

pub record IdempotencyContext : Type 0 where
  pub key : ℕ
  pub user_id : ℕ
  pub request_hash : ℕ

pub data IdempotencyStatus : Type 0 where
  pending completed : IdempotencyStatus

-- The row of `IdempotencyRecord` as far as the code reads it. The id of a resource is never empty.
pub record IdempotencyRecord : Type 0 where
  pub id : ℕ
  pub key : ℕ
  pub user_id : ℕ
  pub request_hash : ℕ
  pub status : IdempotencyStatus
  pub resource_id : Option ℕ
  pub expires_at : ℕ

pub data ReconcileResult : Type 0 where
  replay reuse : ReconcileResult

-- The last three tests of the function, on the status and the resource.
abbrev pub reconcile_status : IdempotencyStatus → Option ℕ → Result ReconcileResult
reconcile_status completed (some resource_id) = ok replay
reconcile_status completed none = err (app (conflict_error idempotency_invalid_state))
reconcile_status pending resource_id = err (app (conflict_error idempotency_conflict))

unfoldable pub reconcile_idempotency_record :
    IdempotencyRecord → IdempotencyContext → ℕ → Result ReconcileResult
reconcile_idempotency_record stored context now =
    if not (stored.user_id == context.user_id)
    then err (app (conflict_error idempotency_key_reused))
    else if leb stored.expires_at now
    then ok reuse
    else if not (stored.request_hash == context.request_hash)
    then err (app (conflict_error idempotency_key_reused))
    else reconcile_status stored.status stored.resource_id
