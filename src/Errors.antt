-- ===== src/Errors.antt =====
-- backend/src/constants/app-errors.ts, backend/src/errors/app.error.ts and the statuses of
-- backend/src/constants/http-statuses.ts: the errors that the services throw, without their texts.
use split_bill_app.Prelude.{ℕ}
use split_bill_app.Keys.{Key}

pub data Code : Type 0 where
  email_in_use invalid_credentials token_missing token_invalid token_expired : Code
  refresh_token_invalid user_not_found group_not_found already_group_member : Code
  not_group_member not_group_owner cannot_remove_owner expense_not_found : Code
  payer_not_group_member split_user_not_group_member duplicate_split_user : Code
  split_total_mismatch settlement_not_found settlement_payer_not_group_member : Code
  settlement_payee_not_group_member settlement_users_must_differ : Code
  settlement_concurrent_locked idempotency_key_missing idempotency_key_invalid : Code
  idempotency_key_reused idempotency_conflict idempotency_invalid_state : Code
  group_summary_not_found job_enqueue_failed email_delivery_failed : Code
  verification_token_invalid verification_token_expired verification_token_used : Code
  reset_token_invalid reset_token_expired reset_token_used email_not_registered : Code

-- One constructor for each class; `base_error` is `new AppError(statusCode, code, …)` itself.
pub data AppError : Type 0 where
  base_error : ℕ → Code → AppError
  bad_request_error conflict_error unauthorized_error forbidden_error : Code → AppError
  not_found_error email_delivery_error : Code → AppError

unfoldable pub status_code : AppError → ℕ
status_code (base_error status code) = status
status_code (bad_request_error code) = 400
status_code (conflict_error code) = 409
status_code (unauthorized_error code) = 401
status_code (forbidden_error code) = 403
status_code (not_found_error code) = 404
status_code (email_delivery_error code) = 503

-- What a call can throw: an error of the application, the conflict of `DistributedLock.withLock`,
-- a `PermanentJobFailureError`, Prisma's P2002, or any other error of a client library, by a tag.
pub data Failure : Type 0 where
  app : AppError → Failure
  lock_conflict : Key → Failure
  permanent_job_failure : Failure
  unique_violation : Failure
  infrastructure : ℕ → Failure
