-- ===== src/Settlements/Repository/Tables.antt =====
-- The Prisma client as far as backend/src/modules/settlements/settlement.repository.ts uses it: a
-- parameter, with what Prisma and PostgreSQL document of these calls.
use split_bill_app.Prelude.{ℕ, ◌≡◌, Option, some}
use split_bill_app.Errors.{Failure}
use split_bill_app.Effects.{ok, err, Action}
use split_bill_app.Effects.Inversion.{ReadsOnly}
use split_bill_app.Records.{ActivityEventData}
use split_bill_app.Idempotency.{IdempotencyRecord, IdempotencyStatus}
use split_bill_app.Settlements.{SettlementCreateData, SettlementRecord}

-- The `operation` of the row is the constant SETTLEMENT_CREATE.
pub record IdempotencyRecordData : Type 0 where
  pub key : ℕ
  pub user_id : ℕ
  pub request_hash : ℕ
  pub status : IdempotencyStatus
  pub scope : ℕ
  pub expires_at : ℕ

-- The `data` with which a record is updated.
pub record IdempotencyRecordUpdate : Type 0 where
  pub status : IdempotencyStatus
  pub resource_id : ℕ

pub record PrismaClient (Db : Type 0) : Type 0 where
  pub find_idempotency_record : ℕ → Action Db (Option IdempotencyRecord)
  pub delete_idempotency_records : ℕ → Action Db (Unit {0})
  pub create_idempotency_record : IdempotencyRecordData → Action Db IdempotencyRecord
  pub update_idempotency_record : ℕ → IdempotencyRecordUpdate → Action Db (Unit {0})
  pub create_settlement_row : SettlementCreateData → Action Db SettlementRecord
  pub find_settlement : ℕ → Action Db (Option SettlementRecord)
  pub create_activity_event : ActivityEventData → Action Db (Unit {0})
  pub transaction : Action Db SettlementRecord → Action Db SettlementRecord
  -- The rows of a state: the record under a key, and the settlement under an id.
  pub record_of : ℕ → Db → Option IdempotencyRecord
  pub settlement_of : ℕ → Db → Option SettlementRecord

pub record TransactionLaws {Db : Type 0} (prisma : PrismaClient Db) : Type 0 where
  -- What a transaction returns its callback has returned, and its writes are committed.
  pub commits :
      (m : Action Db SettlementRecord) (a : SettlementRecord) (db db' : Db)
      → prisma.transaction m db ≡ (ok a, db')
      → m db ≡ (ok a, db')
  -- A transaction that throws has rolled back.
  pub rolls_back :
      (m : Action Db SettlementRecord) (e : Failure) (db db' : Db)
      → prisma.transaction m db ≡ (err e, db')
      → db' ≡ db
  -- What the callback throws the transaction throws.
  pub rethrows :
      (m : Action Db SettlementRecord) (e : Failure) (db db' : Db)
      → m db ≡ (err e, db')
      → prisma.transaction m db ≡ (err e, db)
  -- A read returns the row and writes nothing.
  pub find_record_reads :
      (key : ℕ) (o : Option IdempotencyRecord) (db db' : Db)
      → prisma.find_idempotency_record key db ≡ (ok o, db')
      → (o ≡ prisma.record_of key db) × (db' ≡ db)
  pub find_settlement_reads :
      (id : ℕ) (o : Option SettlementRecord) (db db' : Db)
      → prisma.find_settlement id db ≡ (ok o, db')
      → (o ≡ prisma.settlement_of id db) × (db' ≡ db)
  pub find_record_only_reads : (key : ℕ) → ReadsOnly (prisma.find_idempotency_record key)
  pub find_settlement_only_reads : (id : ℕ) → ReadsOnly (prisma.find_settlement id)

-- What the writes do to the rows that a later request with the same key reads.
pub record WriteLaws {Db : Type 0} (prisma : PrismaClient Db) : Type 0 where
  pub created_record :
      (d : IdempotencyRecordData) (c : IdempotencyRecord) (db db' : Db)
      → prisma.create_idempotency_record d db ≡ (ok c, db')
      → (prisma.record_of d.key db' ≡ some c)
        × (c.user_id ≡ d.user_id)
        × (c.request_hash ≡ d.request_hash)
        × (c.expires_at ≡ d.expires_at)
  pub updated_record :
      (key id : ℕ) (d : IdempotencyRecordUpdate) (c : IdempotencyRecord) (db db' : Db)
      → prisma.update_idempotency_record id d db ≡ (ok tt, db')
      → prisma.record_of key db ≡ some c
      → c.id ≡ id
      → prisma.record_of key db'
        ≡ some (record c { status = d.status; resource_id = some d.resource_id })
  pub created_settlement :
      (d : SettlementCreateData) (s : SettlementRecord) (db db' : Db)
      → prisma.create_settlement_row d db ≡ (ok s, db')
      → prisma.settlement_of s.id db' ≡ some s
  -- Writes to one table leave the others alone.
  pub row_keeps_records :
      (key : ℕ) (d : SettlementCreateData) (s : SettlementRecord) (db db' : Db)
      → prisma.create_settlement_row d db ≡ (ok s, db')
      → prisma.record_of key db' ≡ prisma.record_of key db
  pub event_keeps :
      (key id : ℕ) (d : ActivityEventData) (db db' : Db)
      → prisma.create_activity_event d db ≡ (ok tt, db')
      → (prisma.record_of key db' ≡ prisma.record_of key db)
        × (prisma.settlement_of id db' ≡ prisma.settlement_of id db)
  pub update_keeps_settlements :
      (id record_id : ℕ) (d : IdempotencyRecordUpdate) (db db' : Db)
      → prisma.update_idempotency_record record_id d db ≡ (ok tt, db')
      → prisma.settlement_of id db' ≡ prisma.settlement_of id db
