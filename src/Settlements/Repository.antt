-- ===== src/Settlements/Repository.antt =====
-- `SettlementRepository.createSettlement` (backend/src/modules/settlements/settlement.repository.ts)
-- over the calls of the Prisma client that it makes. `now` is the value of `new Date()`.
pub mod Tables
pub mod Balances
pub mod Laws
pub mod Retry
mod Tests
use split_bill_app.Prelude.{ℕ, ◌+◌, Option, none, some}
use split_bill_app.Errors.{
  Failure, app, unique_violation, conflict_error, idempotency_invalid_state, idempotency_conflict,
}
use split_bill_app.Effects.{Result, ok, err, Action, pure, throw, lift, or_throw, ◌>>=◌, ◌>>◌}
use split_bill_app.Records.{ActivityEventInput, ActivityEventData}
use split_bill_app.Idempotency.{
  IdempotencyContext, IdempotencyRecord, pending, completed, ReconcileResult, replay, reuse,
  reconcile_idempotency_record, idempotency_record_ttl_ms,
}
use split_bill_app.Settlements.{SettlementCreateData, SettlementRecord}
use Tables.{PrismaClient, IdempotencyRecordData, IdempotencyRecordUpdate}

abbrev pub claim_data : ℕ → SettlementCreateData → IdempotencyContext → IdempotencyRecordData
claim_data now d idempotency = record {
  key = idempotency.key;
  user_id = idempotency.user_id;
  request_hash = idempotency.request_hash;
  status = pending;
  scope = d.group_id;
  expires_at = now + idempotency_record_ttl_ms;
}

abbrev pub completion : SettlementRecord → IdempotencyRecordUpdate
completion settlement = record { status = completed; resource_id = settlement.id }

abbrev pub event_data : SettlementRecord → ActivityEventInput → ActivityEventData
event_data settlement activity = record {
  group_id = settlement.group_id;
  event = activity;
  amount_minor_units = some settlement.amount_minor_units;
  currency_code = some settlement.currency_code;
  occurred_at = settlement.created_at;
}

abbrev pub key_conflict : Failure
key_conflict = app (conflict_error idempotency_conflict)

module _ {Db : Type 0} (prisma : PrismaClient Db) where
  open prisma use {
    find_idempotency_record, delete_idempotency_records, create_idempotency_record,
    update_idempotency_record, create_settlement_row, find_settlement, create_activity_event,
    transaction,
  }

  unfoldable pub replay_settlement : IdempotencyRecord → Action Db SettlementRecord
  replay_settlement existing = do
    resource_id ← or_throw existing.resource_id (app (conflict_error idempotency_invalid_state))
    settlement ← find_settlement resource_id
    or_throw settlement (app (conflict_error idempotency_invalid_state))

  -- The part of the transaction that writes: claim the key, store the settlement and its event, and
  -- complete the record.
  unfoldable pub write_settlement :
      ℕ
      → SettlementCreateData
      → IdempotencyContext
      → ActivityEventInput
      → Action Db SettlementRecord
  write_settlement now d idempotency activity = do
    claim ← create_idempotency_record (claim_data now d idempotency)
    settlement ← create_settlement_row d
    create_activity_event (event_data settlement activity)
    update_idempotency_record claim.id (completion settlement)
    pure settlement

  -- What the transaction does about the record that it finds under the key.
  unfoldable pub on_existing :
      ℕ
      → SettlementCreateData
      → IdempotencyContext
      → ActivityEventInput
      → Option IdempotencyRecord
      → Action Db SettlementRecord
  on_existing now d idempotency activity none = write_settlement now d idempotency activity
  on_existing now d idempotency activity (some existing) = do
    outcome ← lift (reconcile_idempotency_record existing idempotency now)
    elim outcome [
      | replay ↦ replay_settlement existing
      | reuse ↦
          delete_idempotency_records existing.id >> write_settlement now d idempotency activity
    ]

  unfoldable pub create_in_transaction :
      ℕ
      → SettlementCreateData
      → IdempotencyContext
      → ActivityEventInput
      → Action Db SettlementRecord
  create_in_transaction now d idempotency activity = do
    existing ← find_idempotency_record idempotency.key
    on_existing now d idempotency activity existing

  -- The `catch` for P2002: another request has claimed the key in the meantime.
  unfoldable pub on_unique_violation :
      ℕ → IdempotencyContext → Option IdempotencyRecord → Action Db SettlementRecord
  on_unique_violation now idempotency none = throw key_conflict
  on_unique_violation now idempotency (some existing) = do
    outcome ← lift (reconcile_idempotency_record existing idempotency now)
    elim outcome [ replay ↦ replay_settlement existing | reuse ↦ throw key_conflict ]

  abbrev pub catch_unique_violation :
      ℕ → IdempotencyContext → Result SettlementRecord × Db → Result SettlementRecord × Db
  catch_unique_violation now idempotency (err unique_violation, db) =
      (do
        existing ← find_idempotency_record idempotency.key
        on_unique_violation now idempotency existing)
        db
  catch_unique_violation now idempotency (r, db) = (r, db)

  unfoldable pub create_settlement :
      ℕ
      → SettlementCreateData
      → IdempotencyContext
      → ActivityEventInput
      → Action Db SettlementRecord
  create_settlement now d idempotency activity db =
      catch_unique_violation now idempotency
        (transaction (create_in_transaction now d idempotency activity) db)
