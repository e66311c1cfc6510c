-- ===== src/Reaper.antt =====
-- api/reaper.go: the age of a lock, and the requeueing of a job whose lock has expired.
pub mod Run
pub mod Expiry
pub mod Repair
pub mod Orphan
pub mod Race
pub mod Tick
pub mod Loop
use Prim.Native.Nat.{min}
use adele_queue.Base.{ℕ, ◌+◌, ◌-◌, ◌&&◌, ◌++◌, Option, none, some, leb, if◌then◌else◌}
use adele_queue.Base.Int.{ℤ, pos, negsuc, add64, mul64, ltb_ℤ}
use adele_queue.Base.Text.{Text, codes}
use adele_queue.Base.Decimal.{decimal}
use adele_queue.Time.{Instant, Duration, unset, seconds, format, add_duration, parse}
use adele_queue.Job.{Job, add_flat, row_of}
use adele_queue.Database.{Database, failed_jobs}
use adele_queue.Queue.{Queue}
use adele_queue.Key.{KeyState, pending, locked, key}
use adele_queue.Key
use adele_queue.Redis.{RedisApi, RedisError, no_such_key, refused, Node, all_fields, set_redis_key}

abbrev max_duration : ℕ
max_duration = 9223372036854775807

-- `time.Since(t)`, which saturates.
unfoldable pub since : Instant → Instant → Duration
since now t =
    if leb t now then pos (min (now - t) max_duration) else negsuc (min (t - now - 1) max_duration)

-- The moment from which a lock's age is counted: `LockedAt`, or else `ReservedAt`.
unfoldable pub lock_start : {W : Type 0} → Job W → Option Instant
lock_start job = elim (parse job.locked_at) [ some t ↦ some t | none ↦ parse job.reserved_at ]

-- `Job.LockFor`, or else the queue's `LockTimeout`, in seconds.
unfoldable pub lock_timeout : {W : Type 0} → Queue W → Job W → ℤ
lock_timeout q job = if ltb_ℤ (pos 0) job.lock_for then job.lock_for else q.lock_timeout

pub data ReapOutcome : Type 0 where
  requeued permafailed : ReapOutcome

-- The job with one attempt more, and the reason.
unfoldable pub expired_job : {W : Type 0} → ℤ → Job W → Job W
expired_job timeout job = record job {
  retry_counter = add64 job.retry_counter (pos 1);
  exception = codes "lock expired after " ++ decimal timeout ++ codes "s";
}

-- The job as each branch stores it; `clock n` is the n-th reading of the clock.
unfoldable pub requeued_job : {W : Type 0} → (ℕ → Instant) → Job W → Job W
requeued_job clock job = record job {
  retry_after = format (add_duration (clock 0) (seconds (mul64 job.retry_counter (pos 5))));
  status = "pending";
  locked_at = unset;
}

unfoldable pub permafailed_job : {W : Type 0} → (ℕ → Instant) → Job W → Job W
permafailed_job clock job = record job {
  failed_at = format (clock 0);
  created_at = clock 1;
  updated_at = clock 2;
  status = "failed";
  locked_at = unset;
}

-- HSET and RENAME of an expired lock: both done, the key gone before the RENAME, or refused.
pub data MoveResult : Type 0 where
  done gone not_done : MoveResult

rename_result : Option RedisError → MoveResult
rename_result none = done
rename_result (some no_such_key) = gone
rename_result (some refused) = not_done

module _ {S W D : Type 0} (api : RedisApi S) (database : Database D) (q : Queue W) where
  unfoldable pub move_expired : Text → Text → KeyState → Job W → S → S × MoveResult
  unfolding rename_result
  move_expired queue id new job s =
      let (s', e) = api.hset (key locked queue id) (all_fields (add_flat job)) s in
      elim e [
        | some _ ↦ (s', not_done)
        | none ↦
            (let (s'', e') = set_redis_key api queue id locked new s' in (s'', rename_result e'))
      ]

  -- Whether the outcome counts, or an error was returned.
  abbrev requeue_result : ReapOutcome → MoveResult → Option ReapOutcome
  requeue_result o done = some o
  requeue_result o gone = some o
  requeue_result o not_done = none

  -- The row of `failed_jobs`, where the move was made.
  abbrev insert_permafailed : Job W → MoveResult → D → D
  insert_permafailed job done d = if q.db then (database.insert failed_jobs (row_of job) d).0 else d
  insert_permafailed job gone d = d
  insert_permafailed job not_done d = d

  unfoldable pub requeue_expired_lock :
      Text → Text → (ℕ → Instant) → Job W → ℤ → Node S W D → Node S W D × Option ReapOutcome
  requeue_expired_lock queue id clock job timeout n =
      let j = expired_job timeout job in
      if j.retry && ltb_ℤ j.retry_counter q.max_attempts
      then (let (s, r) = move_expired queue id pending (requeued_job clock j) n.server in
          (record n { server = s }, requeue_result requeued r))
      else (let p = permafailed_job clock j in
          let (s, r) = move_expired queue id Key.failed p n.server in
          (record n { server = s; db = insert_permafailed p r n.db }, requeue_result permafailed r))
