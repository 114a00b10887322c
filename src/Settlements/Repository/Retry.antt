-- ===== src/Settlements/Repository/Retry.antt =====
-- The life of an Idempotency-Key: a settlement is created under it, and the client retries.
use split_bill_app.Prelude.{ℕ, ◌+◌, ◌<◌, ◌≡◌, refl, inl, inr, none, some, ◌∙◌, arith}
use split_bill_app.Effects.{ok}
use split_bill_app.Effects.Inversion.{Write-cases}
use split_bill_app.Records.{ActivityEventInput}
use split_bill_app.Idempotency.{
  IdempotencyContext, IdempotencyRecord, completed, idempotency_record_ttl_ms,
}
use split_bill_app.Idempotency.Laws.{reconcile-eq-replay_iff}
use split_bill_app.Settlements.{SettlementCreateData, SettlementRecord}
use split_bill_app.Settlements.Repository.Tables.{PrismaClient, TransactionLaws, WriteLaws}
use split_bill_app.Settlements.Repository.{
  replay_settlement, on_existing, create_in_transaction, write_settlement, create_settlement,
  claim_data, completion, event_data,
}
use split_bill_app.Settlements.Repository.Laws.{create_settlement_fresh}

module _ {Db : Type 0} (prisma : PrismaClient Db) (laws : TransactionLaws prisma)
    (writes : WriteLaws prisma) (now : ℕ) (d : SettlementCreateData)
    (idempotency : IdempotencyContext) (activity : ActivityEventInput) where
  -- What the key stands for once `s` has been created under it.
  pub record Claimed (s : SettlementRecord) (db : Db) : Type 0 where
    pub stored : IdempotencyRecord
    pub under_key : prisma.record_of idempotency.key db ≡ some stored
    pub of_user : stored.user_id ≡ idempotency.user_id
    pub of_request : stored.request_hash ≡ idempotency.request_hash
    pub lasts : stored.expires_at ≡ now + idempotency_record_ttl_ms
    pub is_completed : stored.status ≡ completed
    pub points : stored.resource_id ≡ some s.id
    pub row : prisma.settlement_of s.id db ≡ some s

  complete_lem :
      (c : IdempotencyRecord) (s : SettlementRecord) (db db' : Db)
      → prisma.record_of idempotency.key db ≡ some c
      → prisma.settlement_of s.id db ≡ some s
      → (c.user_id ≡ idempotency.user_id)
        × (c.request_hash ≡ idempotency.request_hash)
        × (c.expires_at ≡ now + idempotency_record_ttl_ms)
      → prisma.update_idempotency_record c.id (completion s) db ≡ (ok tt, db')
      → Claimed s db'
  complete_lem c s db db' found row (u, q, t) done = record {
    stored = record c { status = completed; resource_id = some s.id };
    under_key = writes.updated_record idempotency.key c.id (completion s) c db db' done found refl;
    of_user = u;
    of_request = q;
    lasts = t;
    is_completed = refl;
    points = refl;
    row = writes.update_keeps_settlements s.id c.id (completion s) db db' done ∙ row;
  }

  written_lem :
      (c : IdempotencyRecord) (s : SettlementRecord) (db db₁ db₂ db₃ db₄ : Db)
      → prisma.create_idempotency_record (claim_data now d idempotency) db ≡ (ok c, db₁)
      → prisma.create_settlement_row d db₁ ≡ (ok s, db₂)
      → prisma.create_activity_event (event_data s activity) db₂ ≡ (ok tt, db₃)
      → prisma.update_idempotency_record c.id (completion s) db₃ ≡ (ok tt, db₄)
      → Claimed s db₄
  written_lem c s db db₁ db₂ db₃ db₄ claimed stored told done =
      let (found, facts) = created_facts in
      let (same_record, same_row) = writes.event_keeps idempotency.key s.id _ db₂ db₃ told in
      complete_lem c s db₃ db₄
        (same_record ∙ writes.row_keeps_records idempotency.key d s db₁ db₂ stored ∙ found)
        (same_row ∙ writes.created_settlement d s db₁ db₂ stored) facts done
    where
      created_facts :
          (prisma.record_of idempotency.key db₁ ≡ some c)
          × ((c.user_id ≡ idempotency.user_id)
              × (c.request_hash ≡ idempotency.request_hash)
              × (c.expires_at ≡ now + idempotency_record_ttl_ms))
      created_facts =
          let (found, u, q, t) =
            writes.created_record (claim_data now d idempotency) c db db₁ claimed in
          (found, (u, q, t))

  -- The four writes, taken apart.
  write_settlement-Claimed :
      (s : SettlementRecord) (db db' : Db)
      → write_settlement prisma now d idempotency activity db ≡ (ok s, db')
      → Claimed s db'
  unfolding write_settlement
  write_settlement-Claimed s db db' h =
      elim (Write-cases (prisma.create_idempotency_record (claim_data now d idempotency) db)) [
        | inr (x, t, failed) ↦ absurd (ground arith)
        | inl (c, db₁, claimed) ↦ elim (Write-cases (prisma.create_settlement_row d db₁)) [
          | inr (x, t, failed) ↦ absurd (ground arith)
          | inl (row, db₂, stored) ↦
              elim (Write-cases (prisma.create_activity_event (event_data row activity) db₂)) [
                | inr (x, t, failed) ↦ absurd (ground arith)
                | inl (u, db₃, told) ↦
                    elim (Write-cases
                      (prisma.update_idempotency_record c.id (completion row) db₃)) [
                        | inr (x, t, failed) ↦ absurd (ground arith)
                        | inl (v, db₄, done) ↦
                            let same : s ≡ row = ground arith in
                            let end : db' ≡ db₄ = ground arith in
                            rw (same, end)
                              (written_lem c row db db₁ db₂ db₃ db₄ claimed stored (ground arith)
                                (ground arith))
                      ]
              ]
        ]
      ]

  create_in_transaction-Claimed :
      (s : SettlementRecord) (db db' : Db)
      → prisma.record_of idempotency.key db ≡ none
      → create_in_transaction prisma now d idempotency activity db ≡ (ok s, db')
      → Claimed s db'
  unfolding create_in_transaction on_existing
  create_in_transaction-Claimed s db db' fresh h =
      elim (Write-cases (prisma.find_idempotency_record idempotency.key db)) [
        | inr (x, t, failed) ↦ absurd (ground arith)
        | inl (o, t, found) ↦
            let (reads, same) = laws.find_record_reads idempotency.key o db t found in
            write_settlement-Claimed s db db' (ground (arith, reads, same))
      ]

  -- A first call under a fresh key that returns has completed the record of the key, with the user,
  -- the request and a day to live, and the record points to the settlement that the call returned.
  pub create_settlement-Claimed :
      (s : SettlementRecord) (db db' : Db)
      → prisma.record_of idempotency.key db ≡ none
      → create_settlement prisma now d idempotency activity db ≡ (ok s, db')
      → Claimed s db'
  create_settlement-Claimed s db db' fresh h =
      create_in_transaction-Claimed s db db' fresh
        (create_settlement_fresh prisma laws now d idempotency activity s db db' fresh h)

  module _ (later : ℕ) (d' : SettlementCreateData) (activity' : ActivityEventInput)
      (s : SettlementRecord) (db : Db) where
    replay_lem :
        (stored : IdempotencyRecord)
        → stored.resource_id ≡ some s.id
        → prisma.find_settlement s.id db ≡ (ok (some s), db)
        → replay_settlement prisma stored db ≡ (ok s, db)
    unfolding replay_settlement
    replay_lem stored points found = ground arith

    retry_callback :
        (c : Claimed s db)
        → later < now + idempotency_record_ttl_ms
        → prisma.find_idempotency_record idempotency.key db ≡ (ok (some c.stored), db)
        → prisma.find_settlement s.id db ≡ (ok (some s), db)
        → create_in_transaction prisma later d' idempotency activity' db ≡ (ok s, db)
    unfolding create_in_transaction on_existing
    retry_callback c soon found row =
        let replayed =
          (reconcile-eq-replay_iff c.stored idempotency later).1
            (c.of_user, omega (arith, c.lasts), c.of_request, c.is_completed, s.id, c.points) in
        ground (arith, replayed, replay_lem c.stored c.points row)

    retry_after_claim :
        (c : Claimed s db)
        → later < now + idempotency_record_ttl_ms
        → prisma.find_idempotency_record idempotency.key db
          ≡ (ok (prisma.record_of idempotency.key db), db)
        → prisma.find_settlement s.id db ≡ (ok (prisma.settlement_of s.id db), db)
        → prisma.transaction (create_in_transaction prisma later d' idempotency activity') db
          ≡ create_in_transaction prisma later d' idempotency activity' db
        → create_settlement prisma later d' idempotency activity' db ≡ (ok s, db)
    unfolding create_settlement
    retry_after_claim c soon found row committed =
        let ran = retry_callback c soon (ground (arith, c.under_key)) (ground (arith, c.row)) in
        ground (arith, ran)

  pub create_settlement_retry :
      (later : ℕ) (d' : SettlementCreateData) (activity' : ActivityEventInput)
      (s : SettlementRecord) (db db' : Db)
      → prisma.record_of idempotency.key db ≡ none
      → create_settlement prisma now d idempotency activity db ≡ (ok s, db')
      → later < now + idempotency_record_ttl_ms
      → prisma.find_idempotency_record idempotency.key db'
        ≡ (ok (prisma.record_of idempotency.key db'), db')
      → prisma.find_settlement s.id db' ≡ (ok (prisma.settlement_of s.id db'), db')
      → prisma.transaction (create_in_transaction prisma later d' idempotency activity') db'
        ≡ create_in_transaction prisma later d' idempotency activity' db'
      → create_settlement prisma later d' idempotency activity' db' ≡ (ok s, db')
  create_settlement_retry later d' activity' s db db' fresh ran soon found row committed =
      retry_after_claim later d' activity' s db' (create_settlement-Claimed s db db' fresh ran) soon
        found row committed
