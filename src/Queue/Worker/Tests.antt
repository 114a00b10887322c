-- ===== src/Queue/Worker/Tests.antt =====
-- The runner on a queue that holds one job.
use split_bill_app.Prelude.{ℕ, ◌≡◌, refl, List, Option, none, some, true}
use split_bill_app.Errors.{infrastructure}
use split_bill_app.Effects.{ok, err, Metric, World}
use split_bill_app.Queue.Envelope.{
  JobEnvelope, Raw, group_summary_recompute, time_text, serialize, parse_envelope, same_type,
}
use split_bill_app.Queue.Backoff.{JobQueueConfig, backoff_for}
use split_bill_app.Queue.{QueueRedis, discard, retry_after_failure, reschedule}
use split_bill_app.Queue.Worker.{Runner, JobRegistration}

-- The payload of job 12, and the score at which it is queued.
record Slot : Type 0 where
  raw : Option Raw
  score : Option ℕ

abbrev one_job : QueueRedis Slot
one_job = record {
  set_data = λ id raw ttl s. (ok tt, record s { raw = some raw });
  get_data = λ id s. (ok s.raw, s);
  del_data_and_inflight = λ id s. (ok tt, record s { raw = none });
  set_inflight_nx = λ id token ttl s. (ok true, s);
  del_inflight = λ id s. (ok tt, s);
  zadd = λ type score id s. (ok tt, record s { score = some score });
  zrem = λ type id s. (ok tt, record s { score = none });
  claim_script = λ type now s. (ok (some 12), s);
}

abbrev config : JobQueueConfig
config = record {
  max_attempts = 3;
  base_backoff_ms = 1000;
  max_backoff_ms = 60000;
  lease_ms = 30000;
  payload_ttl_ms = 86400000;
}

abbrev job : ℕ → JobEnvelope
job attempts = record {
  job_id = 12;
  type = group_summary_recompute;
  payload = 7;
  attempts = attempts;
  created_at = time_text 5;
  request_id = none;
}

abbrev failing : JobRegistration Slot
failing = record {
  safe_parse = λ payload. some payload;
  process = λ e s. (err (infrastructure 0), s);
}

abbrev slot : ℕ → ℕ → Slot
slot attempts score = record { raw = some (serialize (job attempts)); score = some score }

abbrev gone : Slot
gone = record { raw = none; score = none }

abbrev runner : Slot → List Metric → World (Runner Slot)
runner s metrics = record { db = record { store = s; in_flight = 0 }; metrics = metrics }

discarded : discard one_job config group_summary_recompute 12 (slot 2 50) ≡ (ok tt, gone)
unfolding discard
discarded = refl

rescheduled :
    retry_after_failure one_job config 100 group_summary_recompute 12 2
      (backoff_for config 2)
      (slot 1 50)
    ≡ (ok tt, slot 2 2100)
unfolding retry_after_failure reschedule backoff_for parse_envelope same_type serialize
rescheduled = refl
