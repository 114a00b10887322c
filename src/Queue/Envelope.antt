-- ===== src/Queue/Envelope.antt =====
-- The serialized form of a job (backend/src/queues/job.types.ts), `parseEnvelope` of jobQueue.ts, and
-- their round trip.
use split_bill_app.Prelude.{
  ℕ, ◌≡◌, ◌≢◌, refl, Option, none, some, Bool, true, false, ◌==◌, ◌&&◌, if◌then◌else◌, arith,
}

-- The allowlisted job type, and any other text in its place.
pub data JobType : Type 0 where
  group_summary_recompute : JobType
  unknown : ℕ → JobType

unfoldable pub is_allowlisted : JobType → Bool
is_allowlisted group_summary_recompute = true
is_allowlisted (unknown text) = false

unfoldable pub same_type : JobType → JobType → Bool
same_type group_summary_recompute group_summary_recompute = true
same_type (unknown a) (unknown b) = a == b
same_type a b = false

-- A text, by what it spells: a job id, a job type, a time or anything else.
pub data Text : Type 0 where
  id_text : ℕ → Text
  type_text : JobType → Text
  time_text other_text : ℕ → Text

-- The payload of the only job type is an object with a group id, by that id.
pub record JobEnvelope : Type 0 where
  pub job_id : ℕ
  pub type : JobType
  pub payload : ℕ
  pub attempts : ℕ
  pub created_at : Text
  pub request_id : Option ℕ

-- What `JSON.parse` can make of a member that `parseEnvelope` looks at.
pub data Json : Type 0 where
  absent null boolean : Json
  text : Text → Json
  integer negative_integer : ℕ → Json
  fraction : Json
  object : ℕ → Json

pub record Candidate : Type 0 where
  pub job_id : Json
  pub type : Json
  pub payload : Json
  pub attempts : Json
  pub created_at : Json
  pub request_id : Option ℕ

-- A stored text: not JSON, JSON but no object, or an object by the members that are read.
pub data Raw : Type 0 where
  unparsable no_object : Raw
  candidate : Candidate → Raw

-- `JSON.stringify(envelope)`
unfoldable pub serialize : JobEnvelope → Raw
serialize e = candidate (record {
  job_id = text (id_text e.job_id);
  type = text (type_text e.type);
  payload = object e.payload;
  attempts = integer e.attempts;
  created_at = text e.created_at;
  request_id = e.request_id;
})

abbrev has_id : Json → ℕ → Bool
has_id (text (id_text id)) job_id = id == job_id
has_id json job_id = false

abbrev has_type : Json → JobType → Bool
has_type (text (type_text type)) expected = same_type type expected
has_type json expected = false

-- The last three members: a text for the time, an object, and an integer that is not negative.
abbrev typed_members : Json → Json → Json → Option (Text × ℕ × ℕ)
typed_members (text t) (object p) (integer n) = some (t, p, n)
typed_members created_at payload attempts = none

abbrev envelope_of : ℕ → JobType → Option ℕ → Option (Text × ℕ × ℕ) → Option JobEnvelope
envelope_of job_id type request_id none = none
envelope_of job_id type request_id (some (t, p, n)) = some (record {
  job_id = job_id;
  type = type;
  payload = p;
  attempts = n;
  created_at = t;
  request_id = request_id;
})

unfoldable pub parse_envelope : Raw → JobType → ℕ → Option JobEnvelope
unfolding same_type
parse_envelope unparsable expected_type job_id = none
parse_envelope no_object expected_type job_id = none
parse_envelope (candidate c) expected_type job_id =
    if has_id c.job_id job_id && has_type c.type expected_type
    then envelope_of job_id expected_type c.request_id
        (typed_members c.created_at c.payload c.attempts)
    else none

same_type_refl : (t : JobType) → same_type t t ≡ true
unfolding same_type
same_type_refl group_summary_recompute = refl
same_type_refl (unknown a) = ground arith

-- What was serialized is read back under its own type and id.
pub parse_envelope-serialize :
    (e : JobEnvelope) → parse_envelope (serialize e) e.type e.job_id ≡ some e
unfolding parse_envelope serialize
parse_envelope-serialize e = ground (arith, same_type_refl e.type)

-- A text is read only under the id that it carries: no job is taken for another.
pub parse_envelope_other_id :
    (e : JobEnvelope) (type : JobType) (job_id : ℕ)
    → e.job_id ≢ job_id
    → parse_envelope (serialize e) type job_id ≡ none
unfolding parse_envelope serialize
parse_envelope_other_id e type job_id other = ground arith
