-- ===== src/Memory/Failure.antt =====
-- What a failure does in the memory backend (`addFailedJob` of api/memory.go).
use mathlib.Core.Option
use adele_queue.Base.{
  ℕ, zero, suc, ◌*◌, ◌<◌, ◌≡◌, refl, arith, true, List, [], ◌∷◌, ◌++◌, none, some, length,
  length-append, ◌==◌, if◌then◌else◌,
}
use Prim.Native.Nat.{max}
use adele_queue.Base.Int.{ℤ, pos, ◌≤ℤ◌, ◌<ℤ◌, leb_ℤ, mul64-pos}
use adele_queue.Base.Text.{Text}
use adele_queue.Time.{Instant, seconds-pos}
use adele_queue.Job.{Job, row_of}
use adele_queue.Json.{json_marshal}
use adele_queue.Database.{Database, failed_jobs}
use adele_queue.Memory.{
  Mem, wakes, retry_backoff, retry_delay, next_attempt, cache_failure, failed_record,
  add_failed_job,
}

-- A cache of failed ids that is within a positive high water mark is within it after one failure
-- more, and its last id is then the newest.
pub cache_failure_bounds :
    (high_water_mark : ℤ) (cached : List Text) (id : Text)
    → pos 0 <ℤ high_water_mark
    → pos (length cached) ≤ℤ high_water_mark
    → (pos (length (cache_failure high_water_mark cached id)) ≤ℤ high_water_mark)
      × ((before : List Text) × (cache_failure high_water_mark cached id ≡ before ++ id ∷ []))
unfolding cache_failure
cache_failure_bounds high_water_mark cached id positive fits = (
  ground (arith, length-append cached (id ∷ [])),
  ((if leb_ℤ high_water_mark (pos (length cached)) then [] else cached), refl),
)

retry_backoff_lem :
    (r c : ℕ)
    → r * c < 9223372036
    → retry_backoff (pos r) (pos c) ≡ pos (if r == 0 then c else r * max c 1)
unfolding retry_backoff
retry_backoff_lem zero c h = refl
retry_backoff_lem (suc r) zero h = rw (mul64-pos (suc r) 0 (omega arith)) (ground arith)
retry_backoff_lem (suc r) (suc c) h = rw (mul64-pos (suc r) (suc c) (omega arith)) (ground arith)

interval_below :
    (r c : ℕ)
    → r * c < 9223372036
    → r < 9223372036
    → c < 9223372036
    → (if r == 0 then c else r * max c 1) < 9223372036
interval_below zero c h hr hc = hc
interval_below (suc r) zero h hr hc = ground arith
interval_below (suc r) (suc c) h hr hc = ground arith

-- The first retry waits `RetryInSeconds`, the n-th after it n times as long; with no interval given
-- a retry waits as many seconds as there have been retries. This takes the interval, the counter
-- and their product to be less than 9223372036, so that nothing overflows.
pub retry_delay_lem :
    {W : Type 0} (job : Job W) (r c : ℕ)
    → job.retry_in_seconds ≡ pos r
    → job.retry_counter ≡ pos c
    → r * c < 9223372036
    → r < 9223372036
    → c < 9223372036
    → retry_delay job ≡ pos ((if r == 0 then c else r * max c 1) * 1000000000)
unfolding retry_delay
retry_delay_lem job r c hr hc product hr' hc' =
    rw (hr, hc, retry_backoff_lem r c product)
      (seconds-pos (if r == 0 then c else r * max c 1) (interval_below r c product hr' hc'))

module _ {W D : Type 0} (database : Database D) (now : Instant) (job : Job W) (m : Mem W D) where
  -- Where a retry is left, the failed job is sent again after the backoff, its counter one higher,
  -- and the database is not touched.
  pub add_failed_job_retry :
      (again : Job W)
      → next_attempt m.queue.max_attempts job ≡ some again
      → ((add_failed_job database now job m).sleepers
          ≡ m.sleepers ++ (wakes now (retry_delay job), again) ∷ [])
        × ((add_failed_job database now job m).db ≡ m.db)
  unfolding add_failed_job
  add_failed_job_retry again h = rw h (refl, refl)

  -- Where none is left, nothing is sent again, and with a database wired whose insertion succeeds
  -- `failed_jobs` has one row more. That row has the job's id, name and marshalled payload only:
  -- its exception is empty and its attempts are 0, whatever the job's were.
  pub add_failed_job_final :
      next_attempt m.queue.max_attempts job ≡ none
      → m.queue.db ≡ true
      → (database.insert failed_jobs (row_of (failed_record job)) m.db).1 ≡ none
      → ((add_failed_job database now job m).sleepers ≡ m.sleepers)
        × (database.rows failed_jobs (add_failed_job database now job m).db
            ≡ database.rows failed_jobs m.db
              ++ record {
                job_id = job.id;
                name = job.name;
                payload = Option.map json_marshal job.payload;
                attempts = pos 0;
                created_at = 0;
                updated_at = 0;
                exception = [];
              }
                ∷ [])
  unfolding add_failed_job
  add_failed_job_final h wired accepted = rw (h, wired) (refl, rw (database.rows-insert, accepted))
