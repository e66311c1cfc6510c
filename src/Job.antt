-- ===== src/Job.antt =====
-- api/types.go, `Job`: the job, the hash that redis stores of it, and its row in a table.
use adele_queue.Base.{Bool, false, [], Option, none, some, String, ◌≡◌, refl}
use adele_queue.Base.Int.{ℤ, pos}
use adele_queue.Base.Text.{Text}
use adele_queue.Time.{Instant, Stamp, unset}
use adele_queue.Handler.{Bytes, Handler}

pub record Job (W : Type 0) : Type 0 where
  pub id : Text
  pub handler : Option (Handler W)
  pub name : String
  pub payload : Bytes
  pub retry : Bool
  pub retry_in_seconds : ℤ
  pub retry_counter : ℤ
  pub reserved_at : Stamp
  pub retry_after : Stamp
  pub dispatch_at : Stamp
  pub completed_at : Stamp
  pub failed_at : Stamp
  pub locked_at : Stamp
  pub lock_for : ℤ
  pub queue : Text
  pub created_at : Instant
  pub updated_at : Instant
  pub exception : Text
  pub status : String

-- The zero value, `Job{}`.
abbrev pub zero_job : {W : Type 0} → Job W
zero_job = record {
  id = [];
  handler = none;
  name = "";
  payload = none;
  retry = false;
  retry_in_seconds = pos 0;
  retry_counter = pos 0;
  reserved_at = unset;
  retry_after = unset;
  dispatch_at = unset;
  completed_at = unset;
  failed_at = unset;
  locked_at = unset;
  lock_for = pos 0;
  queue = [];
  created_at = 0;
  updated_at = 0;
  exception = [];
  status = "";
}

-- The fields of a redis hash: those of `Job` that are not tagged `redis:"-"`. A field that the hash
-- lacks reads as its zero value.
pub record Hash : Type 0 where
  pub id : Text
  pub name : String
  pub payload : Bytes
  pub retry : Bool
  pub retry_in_seconds : ℤ
  pub retry_counter : ℤ
  pub reserved_at : Stamp
  pub retry_after : Stamp
  pub dispatch_at : Stamp
  pub completed_at : Stamp
  pub failed_at : Stamp
  pub locked_at : Stamp
  pub lock_for : ℤ
  pub queue : Text
  pub exception : Text
  pub status : String

-- `redis.Args{}.AddFlat(&job)`: every field is written, a nil payload as the empty text.
unfoldable pub add_flat : {W : Type 0} → Job W → Hash
add_flat j = record {
  id = j.id;
  name = j.name;
  payload = elim j.payload [ none ↦ some [] | some p ↦ some p ];
  retry = j.retry;
  retry_in_seconds = j.retry_in_seconds;
  retry_counter = j.retry_counter;
  reserved_at = j.reserved_at;
  retry_after = j.retry_after;
  dispatch_at = j.dispatch_at;
  completed_at = j.completed_at;
  failed_at = j.failed_at;
  locked_at = j.locked_at;
  lock_for = j.lock_for;
  queue = j.queue;
  exception = j.exception;
  status = j.status;
}

-- `redis.ScanStruct(value, &job)` into a zero `Job`: the untagged fields stay zero.
unfoldable pub scan_struct : {W : Type 0} → Hash → Job W
scan_struct h = record {
  id = h.id;
  handler = none;
  name = h.name;
  payload = h.payload;
  retry = h.retry;
  retry_in_seconds = h.retry_in_seconds;
  retry_counter = h.retry_counter;
  reserved_at = h.reserved_at;
  retry_after = h.retry_after;
  dispatch_at = h.dispatch_at;
  completed_at = h.completed_at;
  failed_at = h.failed_at;
  locked_at = h.locked_at;
  lock_for = h.lock_for;
  queue = h.queue;
  created_at = 0;
  updated_at = 0;
  exception = h.exception;
  status = h.status;
}

-- The hash of a key that holds none of the fields.
abbrev pub zero_hash : Hash
zero_hash = record {
  id = [];
  name = "";
  payload = none;
  retry = false;
  retry_in_seconds = pos 0;
  retry_counter = pos 0;
  reserved_at = unset;
  retry_after = unset;
  dispatch_at = unset;
  completed_at = unset;
  failed_at = unset;
  locked_at = unset;
  lock_for = pos 0;
  queue = [];
  exception = [];
  status = "";
}

-- A row of the tables `jobs` and `failed_jobs`: the fields with a column.
pub record Row : Type 0 where
  pub job_id : Text
  pub name : String
  pub payload : Bytes
  pub attempts : ℤ
  pub created_at : Instant
  pub updated_at : Instant
  pub exception : Text

unfoldable pub row_of : {W : Type 0} → Job W → Row
row_of j = record {
  job_id = j.id;
  name = j.name;
  payload = j.payload;
  attempts = j.retry_counter;
  created_at = j.created_at;
  updated_at = j.updated_at;
  exception = j.exception;
}

-- What survives redis: a stored job reads back without its handler and its two database times, and
-- with an empty payload where it had none.
pub scan_struct-add_flat :
    {W : Type 0} (j : Job W)
    → scan_struct {W = W} (add_flat j) ≡ record j {
      handler = none;
      payload = elim j.payload [ none ↦ some [] | some p ↦ some p ];
      created_at = 0;
      updated_at = 0;
    }
unfolding scan_struct add_flat
scan_struct-add_flat j = refl
