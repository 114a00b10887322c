-- ===== src/Summary/Tests.antt =====
-- The summary on a table of summaries, whose calls have the rules of the Prisma client.
use split_bill_app.Prelude.{ℕ, ◌≡◌, refl, Option, none, some, [], ◌==◌, if◌then◌else◌, arith}
use split_bill_app.Effects.{ok, World}
use split_bill_app.Records.{GroupRef}
use split_bill_app.Summary.{
  GroupSummaryRecord, to_summary, recompute_group_summary, get_group_summary,
}
use split_bill_app.Summary.Repository.{
  SummaryClient, SummaryRules, SummaryUpdate, SummaryData, Upserted, summary_repository,
}
use split_bill_app.Summary.Laws.{Recomputed, get_group_summary_after_recompute}

abbrev Summaries : Type 0
Summaries = ℕ → Option GroupSummaryRecord

abbrev home : GroupRef
home = record { id = 7; name = "Home"; created_by_id = 1 }

abbrev merged : SummaryUpdate → SummaryData → Option GroupSummaryRecord → GroupSummaryRecord
merged update create none = record {
  id = create.group_id;
  group_id = create.group_id;
  total_spent_minor_units = create.metrics.total_spent_minor_units;
  expense_count = create.metrics.expense_count;
  settlement_count = create.metrics.settlement_count;
  member_count = create.metrics.member_count;
  currency_code = create.currency_code;
  computed_at = create.computed_at;
}
merged update create (some old) = record old {
  total_spent_minor_units = update.metrics.total_spent_minor_units;
  expense_count = update.metrics.expense_count;
  settlement_count = update.metrics.settlement_count;
  member_count = update.metrics.member_count;
  computed_at = update.computed_at;
}

abbrev table : SummaryClient Summaries
table = record {
  find_group = λ id db. ok (if id == 7 then some home else none);
  find_member = λ g u db. ok (if u == 2 then some u else none);
  sum_of_expenses = λ id db. ok (some 900);
  count_expenses = λ id db. ok 3;
  count_settlements = λ id db. ok 1;
  count_members = λ id db. ok 2;
  upsert = λ g update create db. (
    ok (merged update create (db g)),
    λ j. if j == g then some (merged update create (db g)) else db j,
  );
  find_summary = λ g db. ok (db g);
  summary_of = λ g db. db g;
}

merged-Upserted :
    (update : SummaryUpdate) (create : SummaryData) (o : Option GroupSummaryRecord)
    → Upserted update create o (merged update create o)
merged-Upserted update create none = (
  refl,
  refl,
  record { total = refl; expenses = refl; settlements = refl; members = refl; time = refl },
)
merged-Upserted update create (some old) = (
  refl,
  refl,
  refl,
  record { total = refl; expenses = refl; settlements = refl; members = refl; time = refl },
)

table-SummaryRules : SummaryRules table
table-SummaryRules = record {
  upserted = λ g update create s db db' h.
      let made : merged update create (db g) ≡ s = ground arith in
      (ground arith, rw (← made) (merged-Upserted update create (db g)));
  summary_read = λ g o db h. ground arith;
}

abbrev start : World Summaries
start = record { db = λ g. none; metrics = [] }

abbrev summarized : World Summaries
summarized = (recompute_group_summary (summary_repository table) 100 7 start).1

abbrev row : GroupSummaryRecord
row = record {
  id = 7;
  group_id = 7;
  total_spent_minor_units = 900;
  expense_count = 3;
  settlement_count = 1;
  member_count = 2;
  currency_code = "PKR";
  computed_at = 100;
}

recomputed :
    recompute_group_summary (summary_repository table) 100 7 start
    ≡ (ok (to_summary row), summarized)
unfolding recompute_group_summary
recomputed = refl

get_group_summary_after_recompute_example :
    Recomputed table table-SummaryRules 100 7 start summarized (to_summary row) recomputed
    × ((requester_id : ℕ) (read : GroupSummaryRecord) (end : World Summaries)
        → get_group_summary (summary_repository table) requester_id 7 summarized ≡ (ok read, end)
        → (read ≡ to_summary row) × (end ≡ summarized))
get_group_summary_after_recompute_example =
    get_group_summary_after_recompute table table-SummaryRules 100 7 start summarized
      (to_summary row) recomputed
