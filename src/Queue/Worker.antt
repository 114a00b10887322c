-- ===== src/Queue/Worker.antt =====
-- `WorkerRunner` (backend/src/queues/workerRunner.ts): one poll of a job type, and a tick over all.
pub mod Laws
pub mod Attempts
mod Tests
use split_bill_app.Prelude.{ℕ, ◌+◌, ◌-◌, List, [], ◌∷◌, Option, none, some, leb, if◌then◌else◌}
use split_bill_app.Errors.{Failure, permanent_job_failure}
use split_bill_app.Effects.{
  Result, ok, err, Action, pure, ◌>>=◌, ◌>>◌, World, increment, background_jobs_succeeded_total,
  background_jobs_failed_total, background_jobs_retried_total, background_jobs_discarded_total,
}
use split_bill_app.Queue.Envelope.{JobType, JobEnvelope}
use split_bill_app.Queue.Backoff.{JobQueueConfig, backoff_for}
use split_bill_app.Queue.{
  QueueRedis, ClaimResult, empty, busy, malformed, claimed, claim_next, complete, discard,
  retry_after_failure,
}

-- `this.inFlight` beside the state that the queue and the jobs work on.
pub record Runner (S : Type 0) : Type 0 where
  pub store : S
  pub in_flight : ℕ

-- `schema.safeParse` of a payload, and `process`.
pub record JobRegistration (S : Type 0) : Type 0 where
  pub safe_parse : ℕ → Option ℕ
  pub process : JobEnvelope → Action S (Unit {0})

module _ {S : Type 0} where
  abbrev pub on_store : {A : Type 0} → Action S A → Action (World (Runner S)) A
  on_store m w = let (r, s) = m w.db.store in (r, record w { db = record w.db { store = s } })

  abbrev pub with_in_flight : ℕ → World (Runner S) → World (Runner S)
  with_in_flight n w = record w { db = record w.db { in_flight = n } }

  -- `try { … } catch (error) { … }`
  abbrev pub handle :
      {A : Type 0}
      → (Failure → Action (World (Runner S)) A)
      → Result A × World (Runner S)
      → Result A × World (Runner S)
  handle on_error (ok a, w) = (ok a, w)
  handle on_error (err e, w) = on_error e w

  module _ (redis : QueueRedis S) (config : JobQueueConfig) (now : ℕ) (type : JobType)
      (registration : JobRegistration S) where
    -- The `try` block, on the result of `safeParse`.
    unfoldable pub run_parsed : ℕ → JobEnvelope → Option ℕ → Action (World (Runner S)) (Unit {0})
    run_parsed job_id envelope none = do
      on_store (discard redis config type job_id)
      increment background_jobs_discarded_total
    run_parsed job_id envelope (some payload) = do
      on_store (registration.process (record envelope { payload = payload }))
      on_store (complete redis config type job_id)
      increment background_jobs_succeeded_total

    unfoldable pub give_up : ℕ → Action (World (Runner S)) (Unit {0})
    give_up job_id = do
      on_store (discard redis config type job_id)
      increment background_jobs_failed_total
      increment background_jobs_discarded_total

    unfoldable pub try_again : ℕ → ℕ → Action (World (Runner S)) (Unit {0})
    try_again job_id attempts = do
      on_store
          (retry_after_failure redis config now type job_id attempts (backoff_for config attempts))
      increment background_jobs_failed_total
      increment background_jobs_retried_total

    -- The `catch` block.
    unfoldable pub on_failure : ℕ → JobEnvelope → Failure → Action (World (Runner S)) (Unit {0})
    on_failure job_id envelope permanent_job_failure = give_up job_id
    on_failure job_id envelope e =
        if leb config.max_attempts (envelope.attempts + 1)
        then give_up job_id
        else try_again job_id (envelope.attempts + 1)

    abbrev pub finish : Result (Unit {0}) × World (Runner S) → Result (Unit {0}) × World (Runner S)
    finish (r, w) = (r, with_in_flight (w.db.in_flight - 1) w)

    -- A claimed job, from `this.inFlight += 1` to the `finally` block.
    unfoldable pub run_job : ℕ → JobEnvelope → Action (World (Runner S)) (Unit {0})
    run_job job_id envelope w = finish (
        handle (on_failure job_id envelope) (
          run_parsed job_id envelope (registration.safe_parse envelope.payload)
            (with_in_flight (w.db.in_flight + 1) w)))

    unfoldable pub on_claim : ClaimResult → Action (World (Runner S)) (Unit {0})
    on_claim empty = pure tt
    on_claim busy = pure tt
    on_claim (malformed job_id) = pure tt
    on_claim (claimed job_id envelope) = run_job job_id envelope

    -- `lease_token` is the `randomUUID()` of the claim.
    unfoldable pub process_type : ℕ → Action (World (Runner S)) (Unit {0})
    process_type lease_token = do
      result ← on_store (claim_next redis config now lease_token type)
      on_claim result

  -- The loop of `tick`: an error of one type is logged and the next type has its turn.
  abbrev pub tick :
      QueueRedis S
      → JobQueueConfig
      → ℕ
      → (JobType → JobRegistration S)
      → List (JobType × ℕ)
      → World (Runner S)
      → World (Runner S)
  tick redis config now registry [] w = w
  tick redis config now registry ((type, lease_token) ∷ rest) w =
      tick redis config now registry rest
        (process_type redis config now type (registry type) lease_token w).1
