-- ===== src/Memory/Accounting.antt =====
-- Every job that a memory worker runs leaves exactly one trace (api/queue.go, `runHandler`).
use mathlib.Core.Option
use adele_queue.Base.{
  ℕ, suc, ◌+◌, ◌≡◌, arith, true, [], ◌∷◌, ◌++◌, none, length, length-append, Option-cases,
  Bool-cases, if◌then◌else◌, inl, inr,
}
use adele_queue.Base.Text.{codes}
use adele_queue.Json.{json_marshal}
use adele_queue.Time.{Instant}
use adele_queue.Handler.{Outcome, succeeded, failed, panicked}
use adele_queue.Job.{Job, Row, row_of}
use adele_queue.Database.{Database, Table, jobs, failed_jobs}
use adele_queue.Memory.{
  Mem, wakes, retry_delay, next_attempt, failed_record, add_failed_job, add_completed_job,
}
use adele_queue.Memory.Worker.{record_outcome, run_handler, invoke, runnable, release, process}

-- A database that refuses no insertion.
abbrev pub Accepts : {D : Type 0} → Database D → Type 0
Accepts {D} database = (t : Table) (r : Row) (d : D) → (database.insert t r d).1 ≡ none

-- The rows of completed and of failed jobs, and the jobs that sleep before they are sent again.
abbrev pub traces : {W D : Type 0} → Database D → Mem W D → ℕ
traces database m =
    length (database.rows jobs m.db) + length (database.rows failed_jobs m.db) + length m.sleepers

module _ {D : Type 0} (database : Database D) (accepts : Accepts database) (r : Row) (d : D) where
  inserted_jobs :
      (length (database.rows jobs (database.insert jobs r d).0)
        ≡ suc (length (database.rows jobs d)))
      × (length (database.rows failed_jobs (database.insert jobs r d).0)
          ≡ length (database.rows failed_jobs d))
  inserted_jobs = (
    rw (database.rows-insert, accepts)
        (omega (arith, length-append (database.rows jobs d) (r ∷ []))),
    rw (database.rows-insert),
  )

  inserted_failed :
      (length (database.rows failed_jobs (database.insert failed_jobs r d).0)
        ≡ suc (length (database.rows failed_jobs d)))
      × (length (database.rows jobs (database.insert failed_jobs r d).0)
          ≡ length (database.rows jobs d))
  inserted_failed = (
    rw (database.rows-insert, accepts)
        (omega (arith, length-append (database.rows failed_jobs d) (r ∷ []))),
    rw (database.rows-insert),
  )

module _ {W D : Type 0} (database : Database D) (accepts : Accepts database) where
  traces-add_completed_job :
      (job : Job W) (m : Mem W D)
      → m.queue.db ≡ true
      → traces database (add_completed_job database job m) ≡ suc (traces database m)
  unfolding add_completed_job
  traces-add_completed_job job m wired = rw wired (
      omega (
        arith,
        inserted_jobs database accepts
            (row_of (record job { payload = Option.map json_marshal job.payload })) m.db,
      ))

  traces-add_failed_job :
      (now : Instant) (job : Job W) (m : Mem W D)
      → m.queue.db ≡ true
      → traces database (add_failed_job database now job m) ≡ suc (traces database m)
  unfolding add_failed_job
  traces-add_failed_job now job m wired =
      elim (Option-cases (next_attempt m.queue.max_attempts job)) [
        | inl final ↦
            rw (final, wired)
              (omega (arith, inserted_failed database accepts (row_of (failed_record job)) m.db))
        | inr (again, e) ↦
            rw e
              (omega (arith, length-append m.sleepers ((wakes now (retry_delay job), again) ∷ [])))
      ]

  traces-record_outcome :
      (now : Instant) (job : Job W) (o : Outcome) (m : Mem W D)
      → m.queue.db ≡ true
      → traces database (record_outcome database now job o m) ≡ suc (traces database m)
  unfolding record_outcome
  traces-record_outcome now job succeeded m wired = traces-add_completed_job job m wired
  traces-record_outcome now job (failed e) m wired =
      traces-add_failed_job now (record job { exception = e }) m wired
  traces-record_outcome now job (panicked e) m wired =
      traces-add_failed_job now (record job { exception = codes "panic: " ++ e }) m wired

  -- Where a database is wired that refuses no insertion, a job with a handler, inline or
  -- registered, leaves exactly one trace when a worker runs it, be it that the handler succeeds,
  -- fails or panics: a row of `jobs`, a row of `failed_jobs`, or one goroutine that will send it
  -- again. A job without any handler leaves none.
  pub traces-process :
      (now : Instant) (job : Job W) (m : Mem W D)
      → m.queue.db ≡ true
      → traces database (process database now job m)
        ≡ traces database m + (if runnable m.queue job then 1 else 0)
  unfolding process release run_handler
  traces-process now job m wired = elim (Bool-cases (runnable m.queue job)) [
    | inl runs ↦ rw runs (
        omega (
          arith,
          traces-record_outcome now job (invoke m.queue job m.world).0
              (record m { world = (invoke m.queue job m.world).1 }) wired,
        ))
    | inr idle ↦ rw idle (omega arith)
  ]
