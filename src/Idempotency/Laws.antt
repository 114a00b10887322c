-- ===== src/Idempotency/Laws.antt =====
-- When a stored record is replayed, reused or refused.
use split_bill_app.Prelude.{ℕ, ◌≤◌, ◌<◌, ◌≡◌, ◌≢◌, ◌↔◌, inl, inr, some, Option-cases, arith}
use split_bill_app.Effects.{ok, err}
use split_bill_app.Errors.{app, conflict_error, idempotency_key_reused}
use split_bill_app.Idempotency.{
  IdempotencyContext, IdempotencyRecord, completed, replay, reuse, reconcile_idempotency_record,
}

module _ (stored : IdempotencyRecord) (context : IdempotencyContext) (now : ℕ) where
  -- A stored result is replayed exactly for the same user and the same request, before the record
  -- expires, once the first request has completed with a resource.
  pub reconcile-eq-replay_iff : (reconcile_idempotency_record stored context now ≡ ok replay) ↔ (
      (stored.user_id ≡ context.user_id)
      × (now < stored.expires_at)
      × (stored.request_hash ≡ context.request_hash)
      × (stored.status ≡ completed)
      × (resource : ℕ) × (stored.resource_id ≡ some resource))
  unfolding reconcile_idempotency_record
  reconcile-eq-replay_iff = elim (Option-cases stored.resource_id) [
    | inl missing ↦ (
      λ h. absurd (ground (arith, missing)),
      λ (u, t, q, s, r, there). absurd (ground (arith, missing, there)),
    )
    | inr (resource, there) ↦ (
      λ h. (
        ground (arith, there),
        ground (arith, there),
        ground (arith, there),
        ground (arith, there),
        resource,
        there,
      ),
      λ (u, t, q, s, r, points). ground (arith, there),
    )
  ]

  -- A record is given up for reuse exactly when it is the user's own and has expired.
  pub reconcile-eq-reuse_iff :
      (reconcile_idempotency_record stored context now ≡ ok reuse)
      ↔ ((stored.user_id ≡ context.user_id) × (stored.expires_at ≤ now))
  unfolding reconcile_idempotency_record
  reconcile-eq-reuse_iff = ground arith

  -- Another user's key is refused, whatever else the record says, also after it has expired.
  pub reconcile_other_user :
      stored.user_id ≢ context.user_id
      → reconcile_idempotency_record stored context now
        ≡ err (app (conflict_error idempotency_key_reused))
  unfolding reconcile_idempotency_record
  reconcile_other_user other = ground arith
