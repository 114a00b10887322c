-- ===== src/Summary.antt =====
-- The summary of a group, which the worker recomputes (backend/src/modules/summary): the methods of
-- `SummaryService` (summary.service.ts) and the handler of the job (summary.jobs.ts).
pub mod Laws
pub mod Repository
mod Tests
use split_bill_app.Prelude.{ℕ, ◌≡◌, Option, none, some, String, Bool}
use split_bill_app.Errors.{
  Failure, app, base_error, forbidden_error, not_found_error, group_not_found, not_group_member,
  group_summary_not_found, job_enqueue_failed, permanent_job_failure,
}
use split_bill_app.Effects.{
  Result, ok, err, Action, pure, throw, or_throw, require, ◌>>=◌, ◌>>◌, World, query, command,
  increment, queue_failures_total,
}
use split_bill_app.Records.{GroupRef, to_num}
use split_bill_app.Queue.Envelope.{Text, JobType, group_summary_recompute, JobEnvelope}
use split_bill_app.Queue.Backoff.{JobQueueConfig}
use split_bill_app.Queue.{QueueRedis, enqueue}

pub record GroupSummaryMetrics : Type 0 where
  pub total_spent_minor_units : ℕ
  pub expense_count : ℕ
  pub settlement_count : ℕ
  pub member_count : ℕ

pub record GroupSummaryRecord : Type 0 where
  pub id : ℕ
  pub group_id : ℕ
  pub total_spent_minor_units : ℕ
  pub expense_count : ℕ
  pub settlement_count : ℕ
  pub member_count : ℕ
  pub currency_code : String
  pub computed_at : ℕ

-- The status of the answer is always "queued".
pub record QueuedJobDto : Type 0 where
  pub job_id : ℕ
  pub type : JobType

pub record SummaryRepository (Db : Type 0) : Type 0 where
  pub find_group_by_id : ℕ → Db → Result (Option GroupRef)
  pub is_group_member : ℕ → ℕ → Db → Result Bool
  pub aggregate_group : ℕ → Db → Result GroupSummaryMetrics
  pub upsert_summary : ℕ → GroupSummaryMetrics → ℕ → Db → Result GroupSummaryRecord × Db
  pub find_summary_by_group_id : ℕ → Db → Result (Option GroupSummaryRecord)

-- `GroupSummaryDto` has the fields of the record, its total as a number.
unfoldable pub to_summary : GroupSummaryRecord → GroupSummaryRecord
to_summary summary = record summary {
  total_spent_minor_units = to_num summary.total_spent_minor_units;
}

abbrev pub queued : JobEnvelope → QueuedJobDto
queued envelope = record { job_id = envelope.job_id; type = envelope.type }

module _ {Db : Type 0} (repository : SummaryRepository Db) where
  open repository use {
    find_group_by_id, is_group_member, aggregate_group, upsert_summary, find_summary_by_group_id,
  }

  unfoldable pub recompute_group_summary : ℕ → ℕ → Action (World Db) GroupSummaryRecord
  recompute_group_summary now group_id = do
    group ← query (find_group_by_id group_id)
    _ ← or_throw group (app (not_found_error group_not_found))
    metrics ← query (aggregate_group group_id)
    summary ← command (upsert_summary group_id metrics now)
    pure (to_summary summary)

  -- The two tests of the methods that a requester calls.
  unfoldable pub member_only : ℕ → ℕ → Action (World Db) (Unit {0})
  member_only requester_id group_id = do
    group ← query (find_group_by_id group_id)
    _ ← or_throw group (app (not_found_error group_not_found))
    is_member ← query (is_group_member group_id requester_id)
    require is_member (app (forbidden_error not_group_member))

  unfoldable pub get_group_summary : ℕ → ℕ → Action (World Db) GroupSummaryRecord
  unfolding member_only
  get_group_summary requester_id group_id = do
    member_only requester_id group_id
    found ← query (find_summary_by_group_id group_id)
    summary ← or_throw found (app (not_found_error group_summary_not_found))
    pure (to_summary summary)

  -- The `catch` of the method that enqueues.
  abbrev pub on_enqueue_failure : Result JobEnvelope × World Db → Result QueuedJobDto × World Db
  on_enqueue_failure (ok envelope, w) = (ok (queued envelope), w)
  on_enqueue_failure (err e, w) =
      (increment queue_failures_total >> throw (app (base_error 500 job_enqueue_failed))) w

  abbrev pub catching_enqueue : Action (World Db) JobEnvelope → Action (World Db) QueuedJobDto
  catching_enqueue m w = on_enqueue_failure (m w)

  unfoldable pub enqueue_group_summary_recompute :
      QueueRedis Db
      → JobQueueConfig
      → Text
      → ℕ
      → ℕ
      → ℕ
      → ℕ
      → Option ℕ
      → Action (World Db) QueuedJobDto
  unfolding member_only
  enqueue_group_summary_recompute redis config created_at now job_id requester_id group_id
        request_id =
      do
        member_only requester_id group_id
        catching_enqueue (
            command (
              enqueue redis config created_at now job_id group_summary_recompute group_id request_id
                none))

  -- The `catch` of the job's handler: a group that is gone is a permanent failure.
  abbrev pub translate_missing : Result GroupSummaryRecord × World Db → Result (Unit {0}) × World Db
  translate_missing (ok summary, w) = (ok tt, w)
  translate_missing (err (app (not_found_error group_not_found)), w) =
      (err permanent_job_failure, w)
  translate_missing (err e, w) = (err e, w)

  unfoldable pub process_group_summary_recompute_job :
      ℕ → JobEnvelope → Action (World Db) (Unit {0})
  process_group_summary_recompute_job now envelope w =
      translate_missing (recompute_group_summary now envelope.payload w)
