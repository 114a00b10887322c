-- ===== src/Queue/Tests.antt =====
-- The envelope and the retry delays on concrete values.
use split_bill_app.Prelude.{◌≡◌, none, arith}
use split_bill_app.Queue.Envelope.{
  JobEnvelope, group_summary_recompute, time_text, serialize, parse_envelope,
  parse_envelope_other_id,
}
use split_bill_app.Queue.Backoff.{JobQueueConfig}

abbrev job : JobEnvelope
job = record {
  job_id = 12;
  type = group_summary_recompute;
  payload = 7;
  attempts = 1;
  created_at = time_text 5;
  request_id = none;
}

parse_envelope_other_id_example : parse_envelope (serialize job) group_summary_recompute 13 ≡ none
parse_envelope_other_id_example =
    parse_envelope_other_id job group_summary_recompute 13 (λ e. ground arith)

abbrev config : JobQueueConfig
config = record {
  max_attempts = 5;
  base_backoff_ms = 1000;
  max_backoff_ms = 60000;
  lease_ms = 30000;
  payload_ttl_ms = 86400000;
}
