-- ===== src/Summary/Repository.antt =====
-- `SummaryRepository` (backend/src/modules/summary/summary.repository.ts) over the calls of the
-- Prisma client that it makes, as the repository that the service is built over.
use split_bill_app.Prelude.{ℕ, ◌≡◌, Option, none, some, is_some, or_else, Bool, String}
use split_bill_app.Effects.{Result, ok, err, Action}
use split_bill_app.Records.{GroupRef}
use split_bill_app.Summary.{GroupSummaryMetrics, GroupSummaryRecord, SummaryRepository}

-- The columns that the upsert writes: `create` for a new row, `update` for one that is there.
pub record SummaryData : Type 0 where
  pub group_id : ℕ
  pub metrics : GroupSummaryMetrics
  pub currency_code : String
  pub computed_at : ℕ

pub record SummaryUpdate : Type 0 where
  pub metrics : GroupSummaryMetrics
  pub computed_at : ℕ

-- `sum_of_expenses` is null for a group without expenses. `upsert` has the arguments `where`,
-- `update` and `create`. `summary_of` is the row of a group in a state.
pub record SummaryClient (Db : Type 0) : Type 0 where
  pub find_group : ℕ → Db → Result (Option GroupRef)
  pub find_member : (group_id user_id : ℕ) → Db → Result (Option ℕ)
  pub sum_of_expenses : ℕ → Db → Result (Option ℕ)
  pub count_expenses : ℕ → Db → Result ℕ
  pub count_settlements : ℕ → Db → Result ℕ
  pub count_members : ℕ → Db → Result ℕ
  pub upsert : (group_id : ℕ) → SummaryUpdate → SummaryData → Action Db GroupSummaryRecord
  pub find_summary : ℕ → Db → Result (Option GroupSummaryRecord)
  pub summary_of : ℕ → Db → Option GroupSummaryRecord

pub record Shows (m : GroupSummaryMetrics) (computed_at : ℕ) (s : GroupSummaryRecord) : Type 0 where
  pub total : s.total_spent_minor_units ≡ m.total_spent_minor_units
  pub expenses : s.expense_count ≡ m.expense_count
  pub settlements : s.settlement_count ≡ m.settlement_count
  pub members : s.member_count ≡ m.member_count
  pub time : s.computed_at ≡ computed_at

-- What an upsert makes of the row that was there.
abbrev pub Upserted :
    SummaryUpdate → SummaryData → Option GroupSummaryRecord → GroupSummaryRecord → Type 0
Upserted update create none s =
    (s.group_id ≡ create.group_id)
    × (s.currency_code ≡ create.currency_code)
    × Shows create.metrics create.computed_at s
Upserted update create (some old) s =
    (s.id ≡ old.id)
    × (s.group_id ≡ old.group_id)
    × (s.currency_code ≡ old.currency_code)
    × Shows update.metrics update.computed_at s

-- What Prisma documents of the two calls on the summaries.
pub record SummaryRules {Db : Type 0} (client : SummaryClient Db) : Type 0 where
  pub upserted :
      (group_id : ℕ) (update : SummaryUpdate) (create : SummaryData) (s : GroupSummaryRecord)
      (db db' : Db)
      → client.upsert group_id update create db ≡ (ok s, db')
      → (client.summary_of group_id db' ≡ some s)
        × Upserted update create (client.summary_of group_id db) s
  pub summary_read :
      (group_id : ℕ) (o : Option GroupSummaryRecord) (db : Db)
      → client.find_summary group_id db ≡ ok o
      → o ≡ client.summary_of group_id db

abbrev pub member_there : Result (Option ℕ) → Result Bool
member_there (ok found) = ok (is_some found)
member_there (err e) = err e

-- `Promise.all` of the four aggregates.
abbrev pub metrics_of :
    Result (Option ℕ) → Result ℕ → Result ℕ → Result ℕ → Result GroupSummaryMetrics
metrics_of (ok sum) (ok expenses) (ok settlements) (ok members) = ok (record {
  total_spent_minor_units = or_else sum 0;
  expense_count = expenses;
  settlement_count = settlements;
  member_count = members;
})
metrics_of (err e) expenses settlements members = err e
metrics_of (ok sum) (err e) settlements members = err e
metrics_of (ok sum) (ok expenses) (err e) members = err e
metrics_of (ok sum) (ok expenses) (ok settlements) (err e) = err e

module _ {Db : Type 0} (client : SummaryClient Db) where
  open client use {
    find_group, find_member, sum_of_expenses, count_expenses, count_settlements, count_members,
    upsert, find_summary,
  }

  abbrev pub aggregate_group : ℕ → Db → Result GroupSummaryMetrics
  aggregate_group group_id db =
      metrics_of (sum_of_expenses group_id db) (count_expenses group_id db)
        (count_settlements group_id db) (count_members group_id db)

  abbrev pub upsert_summary : ℕ → GroupSummaryMetrics → ℕ → Action Db GroupSummaryRecord
  upsert_summary group_id metrics computed_at =
      upsert group_id (record { metrics = metrics; computed_at = computed_at })
        (record {
          group_id = group_id;
          metrics = metrics;
          currency_code = "PKR";
          computed_at = computed_at;
        })

  abbrev pub summary_repository : SummaryRepository Db
  summary_repository = record {
    find_group_by_id = find_group;
    is_group_member = λ group_id user_id db. member_there (find_member group_id user_id db);
    aggregate_group = aggregate_group;
    upsert_summary = upsert_summary;
    find_summary_by_group_id = find_summary;
  }
