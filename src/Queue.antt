-- ===== src/Queue.antt =====
-- backend/src/queues/jobQueue.ts and job.types.ts: the job queue over the Redis commands that it uses.
pub mod Envelope
pub mod Backoff
pub mod Worker
mod Tests
use split_bill_app.Prelude.{ℕ, ◌+◌, Option, none, some, Bool, true, false, or_else}
use split_bill_app.Errors.{infrastructure}
use split_bill_app.Effects.{Result, ok, err, Action, pure, require, ◌>>=◌, ◌>>◌}
use split_bill_app.Queue.Envelope.{
  Text, JobType, JobEnvelope, Raw, serialize, parse_envelope, is_allowlisted,
}
use split_bill_app.Queue.Backoff.{JobQueueConfig}

-- The commands, over a state that holds the data of Redis: on the payload key and the in-flight key
-- of a job, on the sorted set of a job type, and the script CLAIM_SCRIPT, which returns the earliest
-- member whose score is not after the given time. Any of them can throw.
pub record QueueRedis (S : Type 0) : Type 0 where
  pub set_data : ℕ → Raw → ℕ → Action S (Unit {0})
  pub get_data : ℕ → Action S (Option Raw)
  pub del_data_and_inflight : ℕ → Action S (Unit {0})
  pub set_inflight_nx : ℕ → ℕ → ℕ → Action S Bool
  pub del_inflight : ℕ → Action S (Unit {0})
  pub zadd : JobType → ℕ → ℕ → Action S (Unit {0})
  pub zrem : JobType → ℕ → Action S (Unit {0})
  pub claim_script : JobType → ℕ → Action S (Option ℕ)

pub data ClaimResult : Type 0 where
  empty busy : ClaimResult
  malformed : ℕ → ClaimResult
  claimed : ℕ → JobEnvelope → ClaimResult

module _ {S : Type 0} (redis : QueueRedis S) (config : JobQueueConfig) where
  open redis use {
    set_data, get_data, del_data_and_inflight, set_inflight_nx, del_inflight, zadd, zrem,
    claim_script,
  }

  -- `job_id` is the `randomUUID()` of the call, `now` the time and `created_at` its text.
  unfoldable pub enqueue : Text → ℕ → ℕ → JobType → ℕ → Option ℕ → Option ℕ → Action S JobEnvelope
  enqueue created_at now job_id type payload request_id scheduled_for = do
    require (is_allowlisted type) (infrastructure 0)
    let envelope : JobEnvelope = record {
      job_id = job_id;
      type = type;
      payload = payload;
      attempts = 0;
      created_at = created_at;
      request_id = request_id;
    }
    set_data job_id (serialize envelope) config.payload_ttl_ms
    zadd type (or_else scheduled_for now) job_id
    pure envelope

  unfoldable pub discard : JobType → ℕ → Action S (Unit {0})
  discard type job_id = do zrem type job_id; del_data_and_inflight job_id

  unfoldable pub complete : JobType → ℕ → Action S (Unit {0})
  complete type job_id = do zrem type job_id; del_data_and_inflight job_id

  -- The payload of a job whose lease was just taken: read, and discarded if it is not readable.
  unfoldable pub read_claimed : JobType → ℕ → Option JobEnvelope → Action S ClaimResult
  read_claimed type job_id (some envelope) = pure (claimed job_id envelope)
  read_claimed type job_id none = do discard type job_id; pure (malformed job_id)

  abbrev pub parsed : Option Raw → JobType → ℕ → Option JobEnvelope
  parsed none type job_id = none
  parsed (some raw) type job_id = parse_envelope raw type job_id

  -- What follows `SET NX` on the in-flight key: the lease was taken, or another consumer holds it.
  unfoldable pub after_lease : JobType → ℕ → Bool → Action S ClaimResult
  after_lease type job_id false = pure busy
  after_lease type job_id true = do
    raw ← get_data job_id
    read_claimed type job_id (parsed raw type job_id)

  unfoldable pub claim_due : ℕ → JobType → Option ℕ → Action S ClaimResult
  claim_due lease_token type none = pure empty
  claim_due lease_token type (some job_id) = do
    leased ← set_inflight_nx job_id lease_token config.lease_ms
    after_lease type job_id leased

  unfoldable pub claim_next : ℕ → ℕ → JobType → Action S ClaimResult
  claim_next now lease_token type = do due ← claim_script type now; claim_due lease_token type due

  abbrev drop_stale : JobType → ℕ → Action S (Unit {0})
  drop_stale type job_id = do zrem type job_id; del_inflight job_id

  unfoldable pub reschedule : ℕ → JobType → ℕ → ℕ → ℕ → Option JobEnvelope → Action S (Unit {0})
  reschedule now type job_id attempts delay_ms none = drop_stale type job_id
  reschedule now type job_id attempts delay_ms (some envelope) = do
    set_data job_id (serialize (record envelope { attempts = attempts })) config.payload_ttl_ms
    zadd type (now + delay_ms) job_id
    del_inflight job_id

  unfoldable pub retry_after_failure : ℕ → JobType → ℕ → ℕ → ℕ → Action S (Unit {0})
  retry_after_failure now type job_id attempts delay_ms = do
    raw ← get_data job_id
    reschedule now type job_id attempts delay_ms (parsed raw type job_id)
