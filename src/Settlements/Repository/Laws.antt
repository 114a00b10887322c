-- ===== src/Settlements/Repository/Laws.antt =====
-- Replays and failures of `createSettlement`.
use split_bill_app.Prelude.{ℕ, ◌≡◌, refl, inl, inr, Option, none, some, ◌∙◌, arith}
use split_bill_app.Errors.{Failure, unique_violation}
use split_bill_app.Effects.{Result, ok, err, Action, ◌>>=◌}
use split_bill_app.Effects.Inversion.{
  Write-cases, Result-cases, KeepsOnFailure, keeps_rules, keeps_state,
}
use split_bill_app.Records.{ActivityEventInput}
use split_bill_app.Idempotency.{
  IdempotencyContext, IdempotencyRecord, replay, reuse, reconcile_idempotency_record,
}
use split_bill_app.Settlements.{SettlementCreateData, SettlementRecord}
use split_bill_app.Settlements.Repository.Tables.{PrismaClient, TransactionLaws}
use split_bill_app.Settlements.Repository.{
  replay_settlement, on_existing, create_in_transaction, on_unique_violation,
  catch_unique_violation, create_settlement,
}

module _ {Db : Type 0} (prisma : PrismaClient Db) (laws : TransactionLaws prisma) where
  -- The settlement that a record points to.
  pub record Stored (existing : IdempotencyRecord) (db : Db) (s : SettlementRecord) : Type 0 where
    pub resource : ℕ
    pub points : existing.resource_id ≡ some resource
    pub row : prisma.settlement_of resource db ≡ some s

  replay_from :
      (existing : IdempotencyRecord) (o : Option ℕ) (s : SettlementRecord) (db db' : Db)
      → existing.resource_id ≡ o
      → replay_settlement prisma existing db ≡ (ok s, db')
      → Stored existing db s × (db' ≡ db)
  unfolding replay_settlement
  replay_from existing none s db db' e h = absurd (ground arith)
  replay_from existing (some rid) s db db' e h =
      elim (Write-cases (prisma.find_settlement rid db)) [
        | inr (x, t, failed) ↦ absurd (ground arith)
        | inl (none, t, found) ↦ absurd (ground arith)
        | inl (some row, t, found) ↦
            let (reads, same) = laws.find_settlement_reads rid (some row) db t found in
            (
              record { resource = rid; points = e; row = ground (arith, reads) },
              ground (arith, reads, same),
            )
      ]

  replay_settlement-Stored :
      (existing : IdempotencyRecord) (s : SettlementRecord) (db db' : Db)
      → replay_settlement prisma existing db ≡ (ok s, db')
      → Stored existing db s × (db' ≡ db)
  replay_settlement-Stored existing s db db' h =
      replay_from existing existing.resource_id s db db' refl h

  replay_settlement-KeepsOnFailure :
      (existing : IdempotencyRecord) → KeepsOnFailure (replay_settlement prisma existing)
  unfolding replay_settlement
  replay_settlement-KeepsOnFailure existing =
      search (keeps_rules, laws.find_settlement_only_reads) depth 10

  module _ (now : ℕ) (d : SettlementCreateData) (idempotency : IdempotencyContext)
      (activity : ActivityEventInput) where
    on_existing_replay :
        (existing : IdempotencyRecord) (db : Db)
        → reconcile_idempotency_record existing idempotency now ≡ ok replay
        → on_existing prisma now d idempotency activity (some existing) db
          ≡ replay_settlement prisma existing db
    unfolding on_existing
    on_existing_replay existing db h = ground arith

    on_unique_violation_replay :
        (existing : IdempotencyRecord) (db : Db)
        → reconcile_idempotency_record existing idempotency now ≡ ok replay
        → on_unique_violation prisma now idempotency (some existing) db
          ≡ replay_settlement prisma existing db
    unfolding on_unique_violation
    on_unique_violation_replay existing db h = ground arith

    on_unique_violation-KeepsOnFailure :
        (o : Option IdempotencyRecord)
        → KeepsOnFailure (on_unique_violation prisma now idempotency o)
    unfolding on_unique_violation KeepsOnFailure
    on_unique_violation-KeepsOnFailure none db db' e h = ground arith
    on_unique_violation-KeepsOnFailure (some existing) db db' e h =
        elim (Result-cases (reconcile_idempotency_record existing idempotency now)) [
          | inl (replay, r) ↦
              keeps_state _ (replay_settlement-KeepsOnFailure existing) db db' e (ground arith)
          | inl (reuse, r) ↦ ground arith
          | inr (x, r) ↦ ground arith
        ]

    create_in_transaction_replay :
        (existing : IdempotencyRecord) (s : SettlementRecord) (db db' : Db)
        → prisma.record_of idempotency.key db ≡ some existing
        → reconcile_idempotency_record existing idempotency now ≡ ok replay
        → create_in_transaction prisma now d idempotency activity db ≡ (ok s, db')
        → Stored existing db s × (db' ≡ db)
    unfolding create_in_transaction
    create_in_transaction_replay existing s db db' r e h =
        elim (Write-cases (prisma.find_idempotency_record idempotency.key db)) [
          | inr (x, t, failed) ↦ absurd (ground arith)
          | inl (o, t, found) ↦
              let (reads, same) = laws.find_record_reads idempotency.key o db t found in
              replay_settlement-Stored existing s db db'
                (ground (arith, reads, same, on_existing_replay existing db e))
        ]

    -- The `catch` of P2002, from the state that the transaction has rolled back to.
    caught : Action Db SettlementRecord
    caught = do
      existing ← prisma.find_idempotency_record idempotency.key
      on_unique_violation prisma now idempotency existing

    caught_replay :
        (existing : IdempotencyRecord) (s : SettlementRecord) (db db' : Db)
        → prisma.record_of idempotency.key db ≡ some existing
        → reconcile_idempotency_record existing idempotency now ≡ ok replay
        → caught db ≡ (ok s, db')
        → Stored existing db s × (db' ≡ db)
    unfolding caught
    caught_replay existing s db db' r e h =
        elim (Write-cases (prisma.find_idempotency_record idempotency.key db)) [
          | inr (x, t, failed) ↦ absurd (ground arith)
          | inl (o, t, found) ↦
              let (reads, same) = laws.find_record_reads idempotency.key o db t found in
              replay_settlement-Stored existing s db db'
                (ground (arith, reads, same, on_unique_violation_replay existing db e))
        ]

    caught-KeepsOnFailure : KeepsOnFailure caught
    unfolding caught
    caught-KeepsOnFailure =
        search (keeps_rules, laws.find_record_only_reads, on_unique_violation-KeepsOnFailure) depth
          10

    catch_replay :
        (existing : IdempotencyRecord) (s : SettlementRecord) (db db' : Db)
        (r : Result SettlementRecord × Db)
        → prisma.record_of idempotency.key db ≡ some existing
        → reconcile_idempotency_record existing idempotency now ≡ ok replay
        → prisma.transaction (create_in_transaction prisma now d idempotency activity) db ≡ r
        → catch_unique_violation prisma now idempotency r ≡ (ok s, db')
        → Stored existing db s × (db' ≡ db)
    unfolding caught
    catch_replay existing s db db' (ok a, t) rec e ran h =
        create_in_transaction_replay existing s db db' rec e (laws.commits _ s db db' (ran ∙ h))
    catch_replay existing s db db' (err unique_violation, t) rec e ran h =
        let back = laws.rolls_back _ unique_violation db t ran in
        caught_replay existing s db db' rec e (rw back at h)
    catch_replay existing s db db' (err x, t) rec e ran h = absurd (ground arith)

    -- While the record of the key is replayable, a call that returns has written nothing: its answer
    -- is the settlement that the record points to.
    pub create_settlement_replays :
        (existing : IdempotencyRecord) (s : SettlementRecord) (db db' : Db)
        → prisma.record_of idempotency.key db ≡ some existing
        → reconcile_idempotency_record existing idempotency now ≡ ok replay
        → create_settlement prisma now d idempotency activity db ≡ (ok s, db')
        → Stored existing db s × (db' ≡ db)
    unfolding create_settlement
    create_settlement_replays existing s db db' rec e h =
        catch_replay existing s db db' _ rec e refl h

    catch-KeepsOnFailure :
        (db db' : Db) (x : Failure) (r : Result SettlementRecord × Db)
        → prisma.transaction (create_in_transaction prisma now d idempotency activity) db ≡ r
        → catch_unique_violation prisma now idempotency r ≡ (err x, db')
        → db' ≡ db
    unfolding caught
    catch-KeepsOnFailure db db' x (ok a, t) ran h = absurd (ground arith)
    catch-KeepsOnFailure db db' x (err unique_violation, t) ran h =
        keeps_state caught caught-KeepsOnFailure t db' x h
        ∙ laws.rolls_back _ unique_violation db t ran
    catch-KeepsOnFailure db db' x (err y, t) ran h = ground (arith, laws.rolls_back _ y db t ran)

    -- A `createSettlement` of the repository that throws has written nothing.
    pub create_settlement_failed :
        (db db' : Db) (x : Failure)
        → create_settlement prisma now d idempotency activity db ≡ (err x, db')
        → db' ≡ db
    unfolding create_settlement
    create_settlement_failed db db' x h = catch-KeepsOnFailure db db' x _ refl h

    catch_fresh :
        (s : SettlementRecord) (db db' : Db) (r : Result SettlementRecord × Db)
        → prisma.record_of idempotency.key db ≡ none
        → prisma.transaction (create_in_transaction prisma now d idempotency activity) db ≡ r
        → catch_unique_violation prisma now idempotency r ≡ (ok s, db')
        → create_in_transaction prisma now d idempotency activity db ≡ (ok s, db')
    unfolding on_unique_violation
    catch_fresh s db db' (ok a, t) fresh ran h = laws.commits _ s db db' (ran ∙ h)
    catch_fresh s db db' (err unique_violation, t) fresh ran h =
        let back = laws.rolls_back _ unique_violation db t ran in
        elim (Write-cases (prisma.find_idempotency_record idempotency.key t)) [
          | inr (x, u, failed) ↦ absurd (ground arith)
          | inl (o, u, found) ↦
              absurd (ground (arith, laws.find_record_reads idempotency.key o t u found))
        ]
    catch_fresh s db db' (err x, t) fresh ran h = absurd (ground arith)

    -- Under a key with no record, a call that returns has run its transaction to the end.
    pub create_settlement_fresh :
        (s : SettlementRecord) (db db' : Db)
        → prisma.record_of idempotency.key db ≡ none
        → create_settlement prisma now d idempotency activity db ≡ (ok s, db')
        → create_in_transaction prisma now d idempotency activity db ≡ (ok s, db')
    unfolding create_settlement
    create_settlement_fresh s db db' fresh h = catch_fresh s db db' _ fresh refl h
