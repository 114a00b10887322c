-- ===== src/Queue/Worker/Attempts.antt =====
-- One job from its first failure to its last: polls of a queue whose only job always fails.
mod Tests
use split_bill_app.Prelude.{
  ℕ, zero, suc, ◌+◌, ◌≤◌, ◌<◌, ◌≡◌, ◌≢◌, refl, sym, ap, ◌∙◌, inl, inr, List, [], ◌∷◌, Option, none,
  some, Bool, true, false, length, arith,
}
use split_bill_app.Errors.{Failure, permanent_job_failure}
use split_bill_app.Effects.{Result, ok, err, World}
use split_bill_app.Queue.Envelope.{
  JobType, JobEnvelope, Raw, serialize, parse_envelope, parse_envelope-serialize,
}
use split_bill_app.Queue.Backoff.{JobQueueConfig, backoff_for}
use split_bill_app.Queue.{
  QueueRedis, ClaimResult, claimed, claim_next, claim_due, after_lease, read_claimed, discard,
  retry_after_failure, reschedule,
}
use split_bill_app.Queue.Worker.{Runner, JobRegistration, process_type, run_job, on_claim}
use split_bill_app.Queue.Worker.Laws.{run_job_gives_up, run_job_retries}

-- What Redis holds of one job: its payload, its score in the set of its type, whether it is leased,
-- and whether it is the only one in that set.
pub record JobState : Type 0 where
  pub data_there : Option Raw
  pub score : Option ℕ
  pub leased : Bool
  pub alone : Bool

module _ {S : Type 0} (view : S → JobState) where
  -- The command has answered `a`, and now `v` is seen.
  pub record Answers {A : Type 0} (run : Result A × S) (a : A) (v : JobState) : Type 0 where
    pub state : S
    pub answered : run ≡ (ok a, state)
    pub seen : view state ≡ v

  -- What Redis documents of the commands, as long as it answers, on one job.
  pub record QueueRules (redis : QueueRedis S) (type : JobType) (job_id : ℕ) : Type 0 where
    pub sets :
        (raw : Raw) (ttl : ℕ) (s : S)
        → Answers (redis.set_data job_id raw ttl s) tt (record (view s) { data_there = some raw })
    pub gets : (s : S) → Answers (redis.get_data job_id s) (view s).data_there (view s)
    pub removes :
        (s : S)
        → Answers
            (redis.del_data_and_inflight job_id s)
            tt
            (record (view s) { data_there = none; leased = false })
    pub leases :
        (token ttl : ℕ) (s : S)
        → (view s).leased ≡ false
        → Answers
            (redis.set_inflight_nx job_id token ttl s)
            true
            (record (view s) { leased = true })
    pub unleases :
        (s : S) → Answers (redis.del_inflight job_id s) tt (record (view s) { leased = false })
    pub zadds :
        (due : ℕ) (s : S)
        → Answers (redis.zadd type due job_id s) tt (record (view s) { score = some due })
    pub zrems : (s : S) → Answers (redis.zrem type job_id s) tt (record (view s) { score = none })
    pub claims :
        (now due : ℕ) (s : S)
        → (view s).score ≡ some due
        → (view s).alone ≡ true
        → due ≤ now
        → Answers (redis.claim_script type now s) (some job_id) (view s)

  -- A processor that throws, not for good, and leaves the queue alone.
  pub record Fails (run : Result (Unit {0}) × S) (s : S) : Type 0 where
    pub failure : Failure
    pub temporary : failure ≢ permanent_job_failure
    pub state : S
    pub failed : run ≡ (err failure, state)
    pub queue_kept : view state ≡ view s

module _ {S : Type 0} (view : S → JobState) (redis : QueueRedis S) (config : JobQueueConfig)
    (job : JobEnvelope) (rules : QueueRules view redis job.type job.job_id) where
  -- The job after some attempts.
  abbrev pub after_attempts : ℕ → JobEnvelope
  after_attempts attempts = record job { attempts = attempts }

  -- The job waits in the queue for `due`, and the worker sees it alone.
  abbrev pub waiting : ℕ → ℕ → JobState
  waiting attempts due = record {
    data_there = some (serialize (after_attempts attempts));
    score = some due;
    leased = false;
    alone = true;
  }

  abbrev pub gone : JobState
  gone = record { data_there = none; score = none; leased = false; alone = true }

  abbrev taken : ℕ → ℕ → JobState
  taken attempts due = record {
    data_there = some (serialize (after_attempts attempts));
    score = some due;
    leased = true;
    alone = true;
  }

  claims_it :
      (now token attempts due : ℕ) (s : S)
      → view s ≡ waiting attempts due
      → due ≤ now
      → Answers view
          (claim_next redis config now token job.type s)
          (claimed job.job_id (after_attempts attempts))
          (taken attempts due)
  unfolding claim_next claim_due after_lease read_claimed
  claims_it now token attempts due s v late =
      let c =
        rules.claims now due s (ap (λ (j : JobState). j.score) v) (ap (λ (j : JobState). j.alone) v)
          late in
      let l =
        rules.leases token config.lease_ms c.state (ap (λ (j : JobState). j.leased) (c.seen ∙ v)) in
      let g = rules.gets l.state in
      let parsed = parse_envelope-serialize (after_attempts attempts) in
      record {
        state = g.state;
        answered = ground (arith, c.answered, l.answered, g.answered, c.seen, l.seen, v, parsed);
        seen = ground (arith, g.seen, l.seen, c.seen, v);
      }

  discards_it :
      (attempts due : ℕ) (s : S)
      → view s ≡ taken attempts due
      → Answers view (discard redis config job.type job.job_id s) tt gone
  unfolding discard
  discards_it attempts due s v =
      let z = rules.zrems s in
      let r = rules.removes z.state in
      record {
        state = r.state;
        answered = ground (arith, z.answered, r.answered);
        seen = ground (arith, r.seen, z.seen, v);
      }

  reschedules_it :
      (now attempts delay due : ℕ) (s : S)
      → view s ≡ taken attempts due
      → Answers view
          (retry_after_failure redis config now job.type job.job_id (attempts + 1) delay s)
          tt
          (waiting (attempts + 1) (now + delay))
  unfolding retry_after_failure reschedule
  reschedules_it now attempts delay due s v =
      let g = rules.gets s in
      let parsed = parse_envelope-serialize (after_attempts attempts) in
      let d =
        rules.sets (serialize (after_attempts (attempts + 1))) config.payload_ttl_ms g.state in
      let z = rules.zadds (now + delay) d.state in
      let u = rules.unleases z.state in
      record {
        state = u.state;
        answered = ground (arith, g.answered, d.answered, z.answered, u.answered, v, parsed);
        seen = ground (arith, u.seen, z.seen, d.seen, g.seen, v);
      }

  -- One poll after another, each at its time and with its lease token.
  abbrev pub poll_all : JobRegistration S → List (ℕ × ℕ) → World (Runner S) → World (Runner S)
  poll_all registration [] w = w
  poll_all registration ((now, token) ∷ polls) w =
      poll_all registration polls (process_type redis config now job.type registration token w).1

  -- Each poll comes when the job is due, which is `due` for the first one.
  abbrev pub Timely : ℕ → ℕ → List (ℕ × ℕ) → Type 0
  Timely attempts due [] = Unit
  Timely attempts due ((now, token) ∷ polls) =
      (due ≤ now) × Timely (attempts + 1) (now + backoff_for config (attempts + 1)) polls

  module _ (registration : JobRegistration S)
      (valid : (payload : ℕ) → (p : ℕ) × (registration.safe_parse payload ≡ some p))
      (fails : (e : JobEnvelope) (s : S) → Fails view (registration.process e s) s) where
    poll_retries :
        (now token attempts due : ℕ) (w : World (Runner S))
        → view w.db.store ≡ waiting attempts due
        → due ≤ now
        → attempts + 1 < config.max_attempts
        → view (process_type redis config now job.type registration token w).1.db.store
          ≡ waiting (attempts + 1) (now + backoff_for config (attempts + 1))
    unfolding process_type on_claim
    poll_retries now token attempts due w v late left =
        let e = after_attempts attempts in
        let c = claims_it now token attempts due w.db.store v late in
        let (p, parsed) = valid e.payload in
        let f = fails (record e { payload = p }) c.state in
        let r =
          reschedules_it now attempts (backoff_for config (attempts + 1)) due f.state
            (f.queue_kept ∙ c.seen) in
        let started = record w { db = record w.db { store = c.state } } in
        let ran =
          run_job_retries redis config now job.type registration job.job_id e p f.failure started
            f.state r.state parsed f.failed f.temporary left r.answered in
        ground (arith, c.answered, ran, r.seen)

    poll_gives_up :
        (now token attempts due : ℕ) (w : World (Runner S))
        → view w.db.store ≡ waiting attempts due
        → due ≤ now
        → config.max_attempts ≤ attempts + 1
        → view (process_type redis config now job.type registration token w).1.db.store ≡ gone
    unfolding process_type on_claim
    poll_gives_up now token attempts due w v late last =
        let e = after_attempts attempts in
        let c = claims_it now token attempts due w.db.store v late in
        let (p, parsed) = valid e.payload in
        let f = fails (record e { payload = p }) c.state in
        let r = discards_it attempts due f.state (f.queue_kept ∙ c.seen) in
        let started = record w { db = record w.db { store = c.state } } in
        let ran =
          run_job_gives_up redis config now job.type registration job.job_id e p f.failure started
            f.state r.state parsed f.failed (inr last) r.answered in
        ground (arith, c.answered, ran, r.seen)

    -- A job that always fails with a temporary error is not lost before its last attempt: after
    -- polls that are fewer than the attempts left, it waits in the queue with that many attempts
    -- more. Each poll comes when the job is due, the job is the only one of its type, Redis answers,
    -- and the processor leaves the queue alone.
    pub always_failing_waits :
        (polls : List (ℕ × ℕ)) (attempts due : ℕ) (w : World (Runner S))
        → view w.db.store ≡ waiting attempts due
        → Timely attempts due polls
        → attempts + length polls < config.max_attempts
        → (next : ℕ) × (view (poll_all registration polls w).db.store
            ≡ waiting (attempts + length polls) next)
    always_failing_waits [] attempts due w v timely left =
        let same : attempts ≡ attempts + 0 = omega arith in (due, v ∙ ap (λ n. waiting n due) same)
    always_failing_waits ((now, token) ∷ polls) attempts due w v timely left =
        let step = poll_retries now token attempts due w v timely.0 (omega (arith, left)) in
        let (next, rest) =
          always_failing_waits polls (attempts + 1) (now + backoff_for config (attempts + 1))
            (process_type redis config now job.type registration token w).1 step timely.1
            (omega (arith, left)) in
        let same : attempts + 1 + length polls ≡ attempts + suc (length polls) = omega arith in
        (next, rest ∙ ap (λ n. waiting n next) same)

    -- A job that always fails with a temporary error ends: after as many polls as it has attempts
    -- left, its payload, its place in the queue and its lease are gone. Each poll comes when the job
    -- is due, the job is the only one of its type, Redis answers, and the processor leaves the queue
    -- alone.
    pub always_failing_discarded :
        (polls : List (ℕ × ℕ)) (attempts due : ℕ) (w : World (Runner S))
        → view w.db.store ≡ waiting attempts due
        → Timely attempts due polls
        → attempts < config.max_attempts
        → attempts + length polls ≡ config.max_attempts
        → view (poll_all registration polls w).db.store ≡ gone
    always_failing_discarded [] attempts due w v timely left all = absurd (omega (arith, left, all))
    always_failing_discarded ((now, token) ∷ []) attempts due w v timely left all =
        poll_gives_up now token attempts due w v timely.0 (omega (arith, all))
    always_failing_discarded ((now, token) ∷ next ∷ polls) attempts due w v timely left all =
        let step = poll_retries now token attempts due w v timely.0 (omega (arith, all)) in
        always_failing_discarded (next ∷ polls) (attempts + 1)
          (now + backoff_for config (attempts + 1))
          (process_type redis config now job.type registration token w).1 step timely.1
          (omega (arith, all)) (omega (arith, all))
