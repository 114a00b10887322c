-- ===== src/Queue/Worker/Attempts/Tests.antt =====
-- A Redis that holds one job, whose rules are those of QueueRules; the job fails three times.
use split_bill_app.Prelude.{
  ℕ, ◌≡◌, refl, List, [], ◌∷◌, Option, none, some, Bool, true, false, leb, if◌then◌else◌, arith,
}
use split_bill_app.Errors.{infrastructure}
use split_bill_app.Effects.{ok, err, World}
use split_bill_app.Queue.Envelope.{JobEnvelope, group_summary_recompute, time_text}
use split_bill_app.Queue.Backoff.{JobQueueConfig, backoff_for}
use split_bill_app.Queue.{QueueRedis}
use split_bill_app.Queue.Worker.{Runner, JobRegistration}
use split_bill_app.Queue.Worker.Attempts.{
  JobState, QueueRules, Fails, waiting, gone, poll_all, always_failing_discarded,
}

abbrev due_job : ℕ → Option ℕ → Bool → Option ℕ
due_job now none alone = none
due_job now (some score) alone = if leb score now then some 12 else none

abbrev one_job : QueueRedis JobState
one_job = record {
  set_data = λ id raw ttl s. (ok tt, record s { data_there = some raw });
  get_data = λ id s. (ok s.data_there, s);
  del_data_and_inflight = λ id s. (ok tt, record s { data_there = none; leased = false });
  set_inflight_nx =
      λ id token ttl s. if s.leased then (ok false, s) else (ok true, record s { leased = true });
  del_inflight = λ id s. (ok tt, record s { leased = false });
  zadd = λ type score id s. (ok tt, record s { score = some score });
  zrem = λ type id s. (ok tt, record s { score = none });
  claim_script = λ type now s. (ok (due_job now s.score s.alone), s);
}

abbrev seen : JobState → JobState
seen s = s

one_job-QueueRules : QueueRules seen one_job group_summary_recompute 12
one_job-QueueRules = record {
  sets = λ raw ttl s. record { state = _; answered = refl; seen = refl };
  gets = λ s. record { state = _; answered = refl; seen = refl };
  removes = λ s. record { state = _; answered = refl; seen = refl };
  leases = λ token ttl s free. record {
    state = record s { leased = true };
    answered = ground arith;
    seen = refl;
  };
  unleases = λ s. record { state = _; answered = refl; seen = refl };
  zadds = λ due s. record { state = _; answered = refl; seen = refl };
  zrems = λ s. record { state = _; answered = refl; seen = refl };
  claims = λ now due s there alone late. record { state = s; answered = ground arith; seen = refl };
}

abbrev config : JobQueueConfig
config = record {
  max_attempts = 3;
  base_backoff_ms = 1000;
  max_backoff_ms = 60000;
  lease_ms = 30000;
  payload_ttl_ms = 86400000;
}

abbrev job : JobEnvelope
job = record {
  job_id = 12;
  type = group_summary_recompute;
  payload = 7;
  attempts = 0;
  created_at = time_text 5;
  request_id = none;
}

abbrev failing : JobRegistration JobState
failing = record {
  safe_parse = λ payload. some payload;
  process = λ e s. (err (infrastructure 0), s);
}

always-Fails : (e : JobEnvelope) (s : JobState) → Fails seen (failing.process e s) s
always-Fails e s = record {
  failure = infrastructure 0;
  temporary = λ q. ground arith;
  state = s;
  failed = refl;
  queue_kept = refl;
}

-- The first poll is at 5, the others after the delays of 1000 and 2000 milliseconds.
abbrev polls : List (ℕ × ℕ)
polls = (5, 1) ∷ (1010, 2) ∷ (3500, 3) ∷ []

abbrev start : World (Runner JobState)
start = record {
  db = record { store = waiting seen one_job config job one_job-QueueRules 0 5; in_flight = 0 };
  metrics = [];
}

always_failing_discarded_example :
    (poll_all seen one_job config job one_job-QueueRules failing polls start).db.store
    ≡ gone seen one_job config job one_job-QueueRules
unfolding backoff_for
always_failing_discarded_example =
    always_failing_discarded seen one_job config job one_job-QueueRules failing (λ p. (p, refl))
      always-Fails polls 0 5 start refl (ground arith, (ground arith, (ground arith, tt)))
      (ground arith) refl
