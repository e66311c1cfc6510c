-- ===== src/Memory.antt =====
-- The memory backend: its state, and api/memory.go. Goroutines are entries of the lists below.
pub mod Worker
pub mod Dispatch
pub mod Failure
pub mod Accounting
pub mod Attempts
pub mod Steps
use mathlib.Core.Option
use adele_queue.Base.{
  ◌+◌, Bool, not, ◌&&◌, List, [], ◌∷◌, ◌++◌, Option, none, some, if◌then◌else◌, length,
}
use adele_queue.Base.Int.{ℤ, pos, pos_part, add64, mul64, eq_ℤ, leb_ℤ, ltb_ℤ}
use adele_queue.Base.Text.{Text}
use adele_queue.Time.{Instant, Duration, seconds}
use adele_queue.Job.{Job, Row, zero_job, row_of}
use adele_queue.Json.{json_marshal}
use adele_queue.Database.{Database, Table, jobs, failed_jobs}
use adele_queue.Queue.{Queue}

-- The queue with its channel: the goroutines that sleep before they send a job, those that have
-- counted a job and are sending it on the unbuffered channel, and the jobs that workers hold.
pub record Mem (W D : Type 0) : Type 0 where
  pub queue : Queue W
  pub sleepers : List (Instant × Job W)
  pub senders : List (Job W)
  pub running : List (Job W)
  pub closed : Bool
  pub crashed : Bool  -- a send on the closed channel, or a second close, has ended the process
  pub world : W
  pub db : D

-- `time.Sleep(d)` begun at `now` ends no sooner than this; a negative duration does not sleep.
unfoldable pub wakes : Instant → Duration → Instant
wakes now d = now + pos_part d

-- The backoff before a retry, in seconds.
unfoldable pub retry_backoff : ℤ → ℤ → ℤ
retry_backoff retry_in_seconds retry_counter =
    if not (eq_ℤ retry_in_seconds (pos 0))
    then (let backoff = mul64 retry_in_seconds retry_counter in
        if eq_ℤ backoff (pos 0) then retry_in_seconds else backoff)
    else retry_counter

unfoldable pub retry_delay : {W : Type 0} → Job W → Duration
retry_delay job = seconds (retry_backoff job.retry_in_seconds job.retry_counter)

-- The job that a failure sends again, or `none` where it is final.
unfoldable pub next_attempt : {W : Type 0} → ℤ → Job W → Option (Job W)
next_attempt max_attempts job =
    if job.retry && ltb_ℤ job.retry_counter max_attempts
    then some (record job { retry_counter = add64 job.retry_counter (pos 1) })
    else none

-- The failure cache with one more id: emptied first once it holds the high water mark.
unfoldable pub cache_failure : ℤ → List Text → Text → List Text
cache_failure high_water_mark cached id =
    (if leb_ℤ high_water_mark (pos (length cached)) then [] else cached) ++ id ∷ []

-- The job that is written to `failed_jobs`.
unfoldable pub failed_record : {W : Type 0} → Job W → Job W
unfolding json_marshal
failed_record job = record zero_job {
  name = job.name;
  id = job.id;
  payload = Option.map json_marshal job.payload;
}

module _ {W D : Type 0} (database : Database D) where
  abbrev insert_failed : Job W → Mem W D → Mem W D
  insert_failed job m =
      if m.queue.db then record m { db = (database.insert failed_jobs (row_of job) m.db).0 } else m

  -- Whether the failure is final is the argument.
  settle_failure : Instant → Job W → Option (Job W) → Mem W D → Mem W D
  unfolding failed_record row_of
  settle_failure now job (some again) m = record m {
    sleepers = m.sleepers ++ (wakes now (retry_delay job), again) ∷ [];
  }
  settle_failure now job none m = insert_failed (failed_record job) m

  -- The lock on `FailedJobs` makes this one step. A failed insertion is only logged.
  unfoldable pub add_failed_job : Instant → Job W → Mem W D → Mem W D
  unfolding settle_failure
  add_failed_job now job m =
      settle_failure now job (next_attempt m.queue.max_attempts job) (record m {
        queue = record m.queue {
          failed_jobs = cache_failure m.queue.high_water_mark m.queue.failed_jobs job.id;
        };
      })

  unfoldable pub add_completed_job : Job W → Mem W D → Mem W D
  unfolding row_of json_marshal
  add_completed_job job m =
      let done = record job { payload = Option.map json_marshal job.payload } in
      if m.queue.db then record m { db = (database.insert jobs (row_of done) m.db).0 } else m

  -- `GetFailedJobs` and `GetCompletedJobs`: no row where no database is wired, `none` on an error.
  get_rows : Table → Mem W D → Option (List Row)
  get_rows t m = if m.queue.db then database.find_all t m.db else some []

  pub get_failed_jobs : Mem W D → Option (List Row)
  unfolding get_rows
  get_failed_jobs m = get_rows failed_jobs m

  pub get_completed_jobs : Mem W D → Option (List Row)
  unfolding get_rows
  get_completed_jobs m = get_rows jobs m

-- `GetFailedJobsFromMemory`
pub get_failed_jobs_from_memory : {W D : Type 0} → Mem W D → List Text
get_failed_jobs_from_memory m = m.queue.failed_jobs
