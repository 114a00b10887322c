-- ===== src/Summary/Laws.antt =====
-- The life of a summary: recomputed by the job, read by a member, and given up with the group.
use split_bill_app.Prelude.{ℕ, ◌≡◌, refl, inl, inr, Option, none, some, or_else, arith}
use split_bill_app.Errors.{permanent_job_failure}
use split_bill_app.Effects.{Result, ok, err, World}
use split_bill_app.Effects.Inversion.{Write-cases, Result-cases}
use split_bill_app.Records.{GroupRef, to_num}
use split_bill_app.Queue.Envelope.{JobEnvelope}
use split_bill_app.Summary.{
  GroupSummaryMetrics, GroupSummaryRecord, SummaryRepository, to_summary, recompute_group_summary,
  get_group_summary, process_group_summary_recompute_job,
}
use split_bill_app.Summary.Repository.{
  SummaryClient, SummaryRules, Shows, Upserted, summary_repository, aggregate_group, metrics_of,
  upsert_summary,
}

module _ {Db : Type 0} (repository : SummaryRepository Db) (now : ℕ) where
  -- A job whose group is gone ends in a permanent failure, and it has written nothing.
  pub missing_group_is_permanent :
      (envelope : JobEnvelope) (w : World Db)
      → repository.find_group_by_id envelope.payload w.db ≡ ok none
      → process_group_summary_recompute_job repository now envelope w
        ≡ (err permanent_job_failure, w)
  unfolding process_group_summary_recompute_job recompute_group_summary
  missing_group_is_permanent envelope w missing = ground arith

module _ {Db : Type 0} (client : SummaryClient Db) (rules : SummaryRules client) (now : ℕ)
    (group_id : ℕ) (w w' : World Db) (dto : GroupSummaryRecord)
    (h : recompute_group_summary (summary_repository client) now group_id w ≡ (ok dto, w')) where
  -- The answer has the sum of the expenses and the counts of the database, and the time.
  pub record Recomputed : Type 0 where
    pub sum : Option ℕ
    pub sum_read : client.sum_of_expenses group_id w.db ≡ ok sum
    pub total : dto.total_spent_minor_units ≡ to_num (or_else sum 0)
    pub expenses : client.count_expenses group_id w.db ≡ ok dto.expense_count
    pub settlements : client.count_settlements group_id w.db ≡ ok dto.settlement_count
    pub members : client.count_members group_id w.db ≡ ok dto.member_count
    pub time : dto.computed_at ≡ now

  group_known : (g : GroupRef) × (client.find_group group_id w.db ≡ ok (some g))
  unfolding recompute_group_summary
  group_known = ground arith

  metrics_known : (m : GroupSummaryMetrics) × (aggregate_group client group_id w.db ≡ ok m)
  unfolding recompute_group_summary
  metrics_known = let (g, found) = group_known in ground (arith, found)

  stored_lem :
      (m : GroupSummaryMetrics)
      → aggregate_group client group_id w.db ≡ ok m
      → (s : GroupSummaryRecord) × (upsert_summary client group_id m now w.db ≡ (ok s, w'.db))
        × (dto ≡ to_summary s)
  unfolding recompute_group_summary
  stored_lem m known =
      let (g, found) = group_known in
      elim (Write-cases (upsert_summary client group_id m now w.db)) [
        | inl (s, db', written) ↦ (s, ground (arith, found), ground (arith, found))
        | inr (e, db', failed) ↦ absurd (ground (arith, found))
      ]

  shows_lem :
      (m : GroupSummaryMetrics) (o : Option GroupSummaryRecord) (s : GroupSummaryRecord)
      → Upserted
          (record { metrics = m; computed_at = now })
          (record { group_id = group_id; metrics = m; currency_code = "PKR"; computed_at = now })
          o
          s
      → Shows m now s
  shows_lem m none s (g, c, shown) = shown
  shows_lem m (some old) s (i, g, c, shown) = shown

  metrics_from :
      (m : GroupSummaryMetrics) (a : Result (Option ℕ)) (b c d : Result ℕ)
      → metrics_of a b c d ≡ ok m
      → (sum : Option ℕ) × (a ≡ ok sum)
        × (m.total_spent_minor_units ≡ or_else sum 0)
        × (b ≡ ok m.expense_count)
        × (c ≡ ok m.settlement_count)
        × (d ≡ ok m.member_count)
  metrics_from m (ok sum) (ok b) (ok c) (ok d) q =
      (sum, refl, ground arith, ground arith, ground arith, ground arith)
  metrics_from m (err e) b c d q = absurd (ground arith)
  metrics_from m (ok sum) (err e) c d q = absurd (ground arith)
  metrics_from m (ok sum) (ok b) (err e) d q = absurd (ground arith)
  metrics_from m (ok sum) (ok b) (ok c) (err e) q = absurd (ground arith)

  -- If `recomputeGroupSummary` returns, its answer has the sum of the group's expenses, 0 without
  -- any, the numbers of its expenses, settlements and members, and the time of the call; and if
  -- `getGroupSummary` then returns to anyone, it returns the same and changes nothing.
  pub get_group_summary_after_recompute :
      Recomputed
      × ((requester_id : ℕ) (read : GroupSummaryRecord) (end : World Db)
          → get_group_summary (summary_repository client) requester_id group_id w' ≡ (ok read, end)
          → (read ≡ dto) × (end ≡ w'))
  unfolding get_group_summary to_summary
  get_group_summary_after_recompute =
      let (m, known) = metrics_known in
      let (s, written, same) = stored_lem m known in
      let (there, made) = rules.upserted group_id _ _ s w.db w'.db written in
      let shown = shows_lem m _ s made in
      let (sum, read_sum, total, expenses, settlements, members) = metrics_from m _ _ _ _ known in
      (
        record {
          sum = sum;
          sum_read = read_sum;
          total = ground (arith, same, shown.total, total);
          expenses = ground (arith, same, shown.expenses, expenses);
          settlements = ground (arith, same, shown.settlements, settlements);
          members = ground (arith, same, shown.members, members);
          time = ground (arith, same, shown.time);
        },
        λ requester_id read end q. elim (Result-cases (client.find_summary group_id w'.db)) [
          | inl (o, found) ↦
              let reads = rules.summary_read group_id o w'.db found in
              (ground (arith, reads, there, same), ground (arith, reads, there))
          | inr (e, failed) ↦ absurd (ground arith)
        ],
      )
