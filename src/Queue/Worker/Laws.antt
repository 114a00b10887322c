-- ===== src/Queue/Worker/Laws.antt =====
-- What the runner does with a claimed job, and its count of running jobs.
use split_bill_app.Prelude.{
  ℕ, ◌+◌, ◌≤◌, ◌<◌, ◌≡◌, ◌≢◌, refl, ◌⊎◌, inl, inr, List, [], ◌∷◌, Option, none, some, ◌∙◌, arith,
}
use split_bill_app.Errors.{Failure, permanent_job_failure}
use split_bill_app.Effects.{
  Result, ok, err, World, background_jobs_succeeded_total, background_jobs_failed_total,
  background_jobs_retried_total, background_jobs_discarded_total,
}
use split_bill_app.Effects.Inversion.{Write-cases}
use split_bill_app.Queue.Envelope.{JobType, JobEnvelope}
use split_bill_app.Queue.Backoff.{JobQueueConfig, backoff_for}
use split_bill_app.Queue.{
  QueueRedis, ClaimResult, empty, busy, malformed, claimed, claim_next, complete, discard,
  retry_after_failure,
}
use split_bill_app.Queue.Worker.{
  Runner, JobRegistration, with_in_flight, handle, run_parsed, give_up, try_again, on_failure,
  run_job, on_claim, process_type, tick,
}

module _ {S : Type 0} (redis : QueueRedis S) (config : JobQueueConfig) (now : ℕ) (type : JobType)
    (registration : JobRegistration S) where
  module _ (job_id : ℕ) (envelope : JobEnvelope) where
    give_up_in_flight :
        (w : World (Runner S))
        → (give_up redis config now type registration job_id w).1.db.in_flight ≡ w.db.in_flight
    unfolding give_up
    give_up_in_flight w = elim (Write-cases (discard redis config type job_id w.db.store)) [
      | inl (a, s, e) ↦ ground arith
      | inr (a, s, e) ↦ ground arith
    ]

    try_again_in_flight :
        (n : ℕ) (w : World (Runner S))
        → (try_again redis config now type registration job_id n w).1.db.in_flight ≡ w.db.in_flight
    unfolding try_again
    try_again_in_flight n w =
        elim (Write-cases
          (retry_after_failure redis config now type job_id n (backoff_for config n) w.db.store)) [
            | inl (a, s, e) ↦ ground arith
            | inr (a, s, e) ↦ ground arith
          ]

    on_failure_in_flight :
        (x : Failure) (w : World (Runner S))
        → (on_failure redis config now type registration job_id envelope x w).1.db.in_flight
          ≡ w.db.in_flight
    unfolding on_failure
    on_failure_in_flight x w =
        ground (arith, give_up_in_flight w, try_again_in_flight (envelope.attempts + 1) w)

    run_some_in_flight :
        (payload : ℕ) (w : World (Runner S))
        → (run_parsed redis config now type registration job_id envelope
            (some payload)
            w).1.db.in_flight
          ≡ w.db.in_flight
    unfolding run_parsed
    run_some_in_flight payload w =
        elim (Write-cases
          (registration.process (record envelope { payload = payload }) w.db.store)) [
            | inr (a, s, e) ↦ ground arith
            | inl (a, s, e) ↦ elim (Write-cases (complete redis config type job_id s)) [
              | inl (b, t, f) ↦ ground arith
              | inr (b, t, f) ↦ ground arith
            ]
          ]

    run_none_in_flight :
        (w : World (Runner S))
        → (run_parsed redis config now type registration job_id envelope none w).1.db.in_flight
          ≡ w.db.in_flight
    unfolding run_parsed
    run_none_in_flight w = elim (Write-cases (discard redis config type job_id w.db.store)) [
      | inl (a, s, e) ↦ ground arith
      | inr (a, s, e) ↦ ground arith
    ]

    run_parsed_in_flight :
        (o : Option ℕ) (w : World (Runner S))
        → (run_parsed redis config now type registration job_id envelope o w).1.db.in_flight
          ≡ w.db.in_flight
    run_parsed_in_flight none w = run_none_in_flight w
    run_parsed_in_flight (some payload) w = run_some_in_flight payload w

    handle_in_flight :
        (r : Result (Unit {0}) × World (Runner S))
        → (handle (on_failure redis config now type registration job_id envelope) r).1.db.in_flight
          ≡ r.1.db.in_flight
    handle_in_flight (ok a, w) = refl
    handle_in_flight (err x, w) = on_failure_in_flight x w

    run_job_in_flight :
        (w : World (Runner S))
        → (run_job redis config now type registration job_id envelope w).1.db.in_flight
          ≡ w.db.in_flight
    unfolding run_job
    run_job_in_flight w =
        let start : World (Runner S) = with_in_flight (w.db.in_flight + 1) w in
        let parsed : Option ℕ = registration.safe_parse envelope.payload in
        omega (
          arith,
          handle_in_flight
              (run_parsed redis config now type registration job_id envelope parsed start),
          run_parsed_in_flight parsed start,
        )

    -- The job is done: its payload is valid, `process` returns, and the queue acknowledges it. The
    -- runner counts one success, and nothing else.
    pub run_job_succeeds :
        (payload : ℕ) (w : World (Runner S)) (s t : S)
        → registration.safe_parse envelope.payload ≡ some payload
        → registration.process (record envelope { payload = payload }) w.db.store ≡ (ok tt, s)
        → complete redis config type job_id s ≡ (ok tt, t)
        → run_job redis config now type registration job_id envelope w ≡ (
          ok tt,
          record {
            db = record w.db { store = t };
            metrics = background_jobs_succeeded_total ∷ w.metrics;
          },
        )
    unfolding run_job run_parsed
    run_job_succeeds payload w s t valid ran acknowledged = ground arith

    -- The job fails for the last time: `process` throws, and the error is permanent or no attempt
    -- is left. The runner discards the job and counts a failure and a discard.
    pub run_job_gives_up :
        (payload : ℕ) (x : Failure) (w : World (Runner S)) (s t : S)
        → registration.safe_parse envelope.payload ≡ some payload
        → registration.process (record envelope { payload = payload }) w.db.store ≡ (err x, s)
        → (x ≡ permanent_job_failure) ⊎ (config.max_attempts ≤ envelope.attempts + 1)
        → discard redis config type job_id s ≡ (ok tt, t)
        → run_job redis config now type registration job_id envelope w ≡ (
          ok tt,
          record {
            db = record w.db { store = t };
            metrics = background_jobs_discarded_total ∷ background_jobs_failed_total ∷ w.metrics;
          },
        )
    unfolding run_job run_parsed on_failure give_up
    run_job_gives_up payload x w s t valid failed last discarded = ground arith

    -- The job fails and an attempt is left: the runner writes it back with one attempt more,
    -- due after the delay of that attempt, and counts a failure and a retry.
    pub run_job_retries :
        (payload : ℕ) (x : Failure) (w : World (Runner S)) (s t : S)
        → registration.safe_parse envelope.payload ≡ some payload
        → registration.process (record envelope { payload = payload }) w.db.store ≡ (err x, s)
        → x ≢ permanent_job_failure
        → envelope.attempts + 1 < config.max_attempts
        → let attempts = envelope.attempts + 1 in
          retry_after_failure redis config now type job_id attempts (backoff_for config attempts) s
            ≡ (ok tt, t)
          → run_job redis config now type registration job_id envelope w ≡ (
            ok tt,
            record {
              db = record w.db { store = t };
              metrics = background_jobs_retried_total ∷ background_jobs_failed_total ∷ w.metrics;
            },
          )
    unfolding run_job run_parsed on_failure try_again
    run_job_retries payload x w s t valid failed temporary left rescheduled = ground arith

  on_claim_in_flight :
      (claim : ClaimResult) (w : World (Runner S))
      → (on_claim redis config now type registration claim w).1.db.in_flight ≡ w.db.in_flight
  unfolding on_claim
  on_claim_in_flight empty w = refl
  on_claim_in_flight busy w = refl
  on_claim_in_flight (malformed job_id) w = refl
  on_claim_in_flight (claimed job_id envelope) w = run_job_in_flight job_id envelope w

  process_type_in_flight :
      (lease_token : ℕ) (w : World (Runner S))
      → (process_type redis config now type registration lease_token w).1.db.in_flight
        ≡ w.db.in_flight
  unfolding process_type
  process_type_in_flight lease_token w =
      elim (Write-cases (claim_next redis config now lease_token type w.db.store)) [
        | inl (claim, s, e) ↦
            ground (arith, on_claim_in_flight claim (record w { db = record w.db { store = s } }))
        | inr (x, s, e) ↦ ground arith
      ]

-- Whatever the jobs, the queue and Redis do, after a tick as many jobs count as running as before
-- it.
pub tick_in_flight :
    {S : Type 0} (redis : QueueRedis S) (config : JobQueueConfig) (now : ℕ)
    (registry : JobType → JobRegistration S) (types : List (JobType × ℕ)) (w : World (Runner S))
    → (tick redis config now registry types w).db.in_flight ≡ w.db.in_flight
tick_in_flight redis config now registry [] w = refl
tick_in_flight redis config now registry ((type, lease_token) ∷ rest) w =
    tick_in_flight redis config now registry rest _
    ∙ process_type_in_flight redis config now type (registry type) lease_token w
