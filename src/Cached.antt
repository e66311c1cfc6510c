-- ===== src/Cached.antt =====
-- `Queue.UnmarshalPayload` of api/queue.go: a job from its JSON text. encoding/json is the
-- parameter `unmarshal`, which fails with an error or reads the fields that the tags of `Job` let
-- it set.
use adele_queue.Base.{◌≡◌, refl, sym, ◌⊎◌, inl, inr, false, none, String}
use mathlib.Core.Sum.{inl-ne-inr, inr-injective}
use adele_queue.Base.Int.{ℤ, pos}
use adele_queue.Base.Text.{Text}
use adele_queue.Time.{Stamp, unset}
use adele_queue.Handler.{Bytes}
use adele_queue.Job.{Job}
use adele_queue.Queue.{Queue}
use adele_queue.Redis.Handle.{retriable}

-- The fields of `Job` that are not tagged `json:"-"`.
pub record JobJson : Type 0 where
  pub id : Text
  pub name : String
  pub payload : Bytes
  pub retry_counter : ℤ
  pub reserved_at : Stamp
  pub dispatch_at : Stamp
  pub completed_at : Stamp
  pub failed_at : Stamp
  pub locked_at : Stamp
  pub lock_for : ℤ
  pub queue : Text
  pub exception : Text
  pub status : String

-- `json.Unmarshal` into a zero `Job`: the fields tagged `json:"-"` stay zero.
unfoldable job_of_json : {W : Type 0} → JobJson → Job W
job_of_json v = record {
  id = v.id;
  handler = none;
  name = v.name;
  payload = v.payload;
  retry = false;
  retry_in_seconds = pos 0;
  retry_counter = v.retry_counter;
  reserved_at = v.reserved_at;
  retry_after = unset;
  dispatch_at = v.dispatch_at;
  completed_at = v.completed_at;
  failed_at = v.failed_at;
  locked_at = v.locked_at;
  lock_for = v.lock_for;
  queue = v.queue;
  created_at = 0;
  updated_at = 0;
  exception = v.exception;
  status = v.status;
}

-- The error as it is, or the decoded job.
unfoldable job_or_error : {E W : Type 0} → E ⊎ JobJson → E ⊎ Job W
unfolding job_of_json
job_or_error (inl err) = inl err
job_or_error (inr v) = inr (job_of_json v)

module _ {E W : Type 0} (unmarshal : Bytes → E ⊎ JobJson) where
  abbrev unmarshal_payload : Bytes → E ⊎ Job W
  unmarshal_payload cached = job_or_error (unmarshal cached)

  -- The error of encoding/json is returned, and no job.
  unmarshal_payload_malformed :
      (cached : Bytes) (err : E) → unmarshal cached ≡ inl err → unmarshal_payload cached ≡ inl err
  unfolding job_or_error
  unmarshal_payload_malformed cached err e = rw e

module _ {E W : Type 0} (q : Queue W) (job : Job W) where
  job_or_error-retriable : (r : E ⊎ JobJson) → job_or_error r ≡ inr job → retriable q job ≡ false
  unfolding job_or_error job_of_json retriable
  job_or_error-retriable (inl err) e = absurd (inl-ne-inr e)
  job_or_error-retriable (inr v) e = rw (sym (inr-injective (job_of_json v) job e)) refl

  -- The retry settings of a job are not in its JSON text, so a job that is read from one is not
  -- retried by a redis worker, whatever its counter and the limit of the queue.
  unmarshal_payload-retriable :
      (unmarshal : Bytes → E ⊎ JobJson) (cached : Bytes)
      → unmarshal_payload unmarshal cached ≡ inr job
      → retriable q job ≡ false
  unmarshal_payload-retriable unmarshal cached e = job_or_error-retriable (unmarshal cached) e
