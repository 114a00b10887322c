-- ===== src/Settlements/Repository/Tests.antt =====
-- A database of two tables whose calls never fail has the laws that the repository is proved from;
-- settlements are created in it.
use split_bill_app.Prelude.{ℕ, suc, ◌≡◌, refl, Option, none, some, ◌==◌, if◌then◌else◌, arith}
use split_bill_app.Errors.{Failure, app, conflict_error, idempotency_key_reused}
use split_bill_app.Effects.{Result, ok, err}
use split_bill_app.Effects.Inversion.{ReadsOnly}
use split_bill_app.Records.{SafeUser, ActivityEventInput, settlement_added}
use split_bill_app.Idempotency.{
  IdempotencyContext, IdempotencyRecord, completed, replay, reconcile_idempotency_record,
}
use split_bill_app.Settlements.{SettlementCreateData, SettlementRecord}
use split_bill_app.Settlements.Repository.Tables.{
  PrismaClient, TransactionLaws, WriteLaws, IdempotencyRecordData, IdempotencyRecordUpdate,
}
use split_bill_app.Settlements.Repository.{
  create_settlement, create_in_transaction, on_existing, write_settlement, replay_settlement,
}
use split_bill_app.Settlements.Repository.Laws.{
  Stored, create_settlement_replays, create_settlement_failed, create_settlement_fresh,
}
use split_bill_app.Settlements.Repository.Retry.{
  Claimed, create_settlement-Claimed, create_settlement_retry,
}

-- The tables by key and by id, and the next id.
record Rows : Type 0 where
  records : ℕ → Option IdempotencyRecord
  settlements : ℕ → Option SettlementRecord
  next_id : ℕ

abbrev anna : SafeUser
anna = record { id = 2; name = "Anna"; email = "anna@example.org" }

abbrev new_record : ℕ → IdempotencyRecordData → IdempotencyRecord
new_record id d = record {
  id = id;
  key = d.key;
  user_id = d.user_id;
  request_hash = d.request_hash;
  status = d.status;
  resource_id = none;
  expires_at = d.expires_at;
}

abbrev new_settlement : ℕ → SettlementCreateData → SettlementRecord
new_settlement id d = record {
  id = id;
  group_id = d.group_id;
  payer_id = d.payer_id;
  payee_id = d.payee_id;
  amount_minor_units = d.amount_minor_units;
  currency_code = d.currency_code;
  settled_at = d.settled_at;
  created_at = d.settled_at;
  updated_at = d.settled_at;
  payer = anna;
  payee = anna;
}

abbrev without : ℕ → Option IdempotencyRecord → Option IdempotencyRecord
without id none = none
without id (some r) = if r.id == id then none else some r

abbrev completing :
    ℕ → IdempotencyRecordUpdate → Option IdempotencyRecord → Option IdempotencyRecord
completing id d none = none
completing id d (some r) =
    if r.id == id
    then some (record r { status = d.status; resource_id = some d.resource_id })
    else some r

abbrev settle : Rows → Result SettlementRecord × Rows → Result SettlementRecord × Rows
settle db (ok s, db') = (ok s, db')
settle db (err e, db') = (err e, db)

abbrev two_tables : PrismaClient Rows
two_tables = record {
  find_idempotency_record = λ key db. (ok (db.records key), db);
  delete_idempotency_records =
      λ id db. (ok tt, record db { records = λ key. without id (db.records key) });
  create_idempotency_record = λ d db. (
    ok (new_record db.next_id d),
    record db {
      records = λ key. if key == d.key then some (new_record db.next_id d) else db.records key;
      next_id = suc db.next_id;
    },
  );
  update_idempotency_record =
      λ id d db. (ok tt, record db { records = λ key. completing id d (db.records key) });
  create_settlement_row = λ d db. (
    ok (new_settlement db.next_id d),
    record db {
      settlements =
          λ id. if id == db.next_id then some (new_settlement db.next_id d) else db.settlements id;
      next_id = suc db.next_id;
    },
  );
  find_settlement = λ id db. (ok (db.settlements id), db);
  create_activity_event = λ d db. (ok tt, db);
  transaction = λ m db. settle db (m db);
  record_of = λ key db. db.records key;
  settlement_of = λ id db. db.settlements id;
}

commits_lem :
    (r : Result SettlementRecord × Rows) (a : SettlementRecord) (db db' : Rows)
    → settle db r ≡ (ok a, db')
    → r ≡ (ok a, db')
commits_lem (ok s, t) a db db' h = h
commits_lem (err e, t) a db db' h = absurd (ground arith)

rolls_back_lem :
    (r : Result SettlementRecord × Rows) (e : Failure) (db db' : Rows)
    → settle db r ≡ (err e, db')
    → db' ≡ db
rolls_back_lem (ok s, t) e db db' h = absurd (ground arith)
rolls_back_lem (err x, t) e db db' h = ground arith

two_tables-TransactionLaws : TransactionLaws two_tables
unfolding ReadsOnly
two_tables-TransactionLaws = record {
  commits = λ m a db db' h. commits_lem (m db) a db db' h;
  rolls_back = λ m e db db' h. rolls_back_lem (m db) e db db' h;
  rethrows = λ m e db db' h. rw h refl;
  find_record_reads = λ key o db db' h. (ground arith, ground arith);
  find_settlement_reads = λ id o db db' h. (ground arith, ground arith);
  find_record_only_reads = λ key s. refl;
  find_settlement_only_reads = λ id s. refl;
}

two_tables-WriteLaws : WriteLaws two_tables
two_tables-WriteLaws = record {
  created_record = λ d c db db' h. (ground arith, ground arith, ground arith, ground arith);
  updated_record = λ key id d c db db' h found same. ground arith;
  created_settlement = λ d s db db' h. ground arith;
  row_keeps_records = λ key d s db db' h. ground arith;
  event_keeps = λ key id d db db' h. (ground arith, ground arith);
  update_keeps_settlements = λ id record_id d db db' h. ground arith;
}

-- User 2 sends 500 to user 3 in group 7, under the key 10.
abbrev details : SettlementCreateData
details = record {
  group_id = 7;
  payer_id = 2;
  payee_id = 3;
  amount_minor_units = 500;
  currency_code = "PKR";
  settled_at = 1000;
}

abbrev asked_by : ℕ → IdempotencyContext
asked_by user_id = record { key = 10; user_id = user_id; request_hash = 33 }

abbrev activity : ActivityEventInput
activity = record { user_id = 2; type = settlement_added; message = "recorded a settlement" }

abbrev empty : Rows
empty = record { records = λ key. none; settlements = λ id. none; next_id = 1 }

-- The state after the first call, and the settlement that it made.
abbrev after : Rows
after = (create_settlement two_tables 1000 details (asked_by 2) activity empty).1

abbrev made : SettlementRecord
made = new_settlement 2 details

first_run : create_settlement two_tables 1000 details (asked_by 2) activity empty ≡ (ok made, after)
unfolding create_settlement create_in_transaction on_existing write_settlement
first_run = refl

create_settlement-Claimed_example :
    Claimed two_tables two_tables-TransactionLaws two_tables-WriteLaws 1000 details
      (asked_by 2)
      activity
      made
      after
create_settlement-Claimed_example =
    create_settlement-Claimed two_tables two_tables-TransactionLaws two_tables-WriteLaws 1000
      details (asked_by 2) activity made empty after refl first_run

create_settlement_fresh_example :
    create_in_transaction two_tables 1000 details (asked_by 2) activity empty ≡ (ok made, after)
create_settlement_fresh_example =
    create_settlement_fresh two_tables two_tables-TransactionLaws 1000 details (asked_by 2) activity
      made empty after refl first_run

-- The callback of the retry returns, so that its transaction commits.
retry_commits :
    two_tables.transaction
      (create_in_transaction two_tables 2000 details (asked_by 2) activity)
      after
    ≡ create_in_transaction two_tables 2000 details (asked_by 2) activity after
unfolding create_settlement create_in_transaction on_existing write_settlement replay_settlement
    reconcile_idempotency_record
retry_commits = refl

create_settlement_retry_example :
    create_settlement two_tables 2000 details (asked_by 2) activity after ≡ (ok made, after)
create_settlement_retry_example =
    create_settlement_retry two_tables two_tables-TransactionLaws two_tables-WriteLaws 1000 details
      (asked_by 2) activity 2000 details activity made empty after refl first_run (ground arith)
      refl refl retry_commits

abbrev stored : IdempotencyRecord
stored = record {
  id = 1;
  key = 10;
  user_id = 2;
  request_hash = 33;
  status = completed;
  resource_id = some 2;
  expires_at = 86401000;
}

stored_after : two_tables.record_of 10 after ≡ some stored
unfolding create_settlement create_in_transaction on_existing write_settlement
stored_after = refl

replayable : reconcile_idempotency_record stored (asked_by 2) 2000 ≡ ok replay
unfolding reconcile_idempotency_record
replayable = refl

create_settlement_replays_example :
    Stored two_tables two_tables-TransactionLaws stored after made × (after ≡ after)
create_settlement_replays_example =
    create_settlement_replays two_tables two_tables-TransactionLaws 2000 details (asked_by 2)
      activity stored made after after stored_after replayable create_settlement_retry_example

-- Another user with the same key.
reused : Failure
reused = app (conflict_error idempotency_key_reused)

reused_run :
    create_settlement two_tables 2000 details (asked_by 3) activity after ≡ (err reused, after)
unfolding reused create_settlement create_in_transaction on_existing write_settlement
    reconcile_idempotency_record
reused_run = refl

create_settlement_failed_example : after ≡ after
create_settlement_failed_example =
    create_settlement_failed two_tables two_tables-TransactionLaws 2000 details (asked_by 3)
      activity after after reused reused_run
