-- ===== src/Memory/Steps/Depth.antt =====
-- `Depth` of the memory backend counts the jobs that are being sent or run (api/queue.go).
use adele_queue.Base.{
  ◌+◌, ◌≡◌, arith, Bool, true, false, [], ◌++◌, length, Option-cases, inl, inr, if◌then◌else◌,
}
use adele_queue.Base.Int.{pos, wrap64}
use adele_queue.Base.Text.{codes}
use adele_queue.Time.{Instant}
use adele_queue.Handler.{Outcome, succeeded, failed, panicked}
use adele_queue.Job.{Job}
use adele_queue.Database.{Database}
use adele_queue.Memory.{Mem, next_attempt, add_failed_job, add_completed_job}
use adele_queue.Memory.Worker.{invoke, record_outcome, run_handler}
use adele_queue.Memory.Steps.{closed}

-- What the run of a job leaves alone.
pub record IsFramed {W D : Type 0} (m t : Mem W D) : Type 0 where
  pub senders : t.senders ≡ m.senders
  pub running : t.running ≡ m.running
  pub closed : t.closed ≡ m.closed
  pub crashed : t.crashed ≡ m.crashed
  pub pending : t.queue.pending_count ≡ m.queue.pending_count
  pub workers : t.queue.worker_count ≡ m.queue.worker_count

module _ {W D : Type 0} (database : Database D) where
  add_completed_job-IsFramed :
      (job : Job W) (m : Mem W D) → IsFramed m (add_completed_job database job m)
  unfolding add_completed_job
  add_completed_job-IsFramed job m = ground arith

  add_failed_job-IsFramed :
      (now : Instant) (job : Job W) (m : Mem W D) → IsFramed m (add_failed_job database now job m)
  unfolding add_failed_job
  add_failed_job-IsFramed now job m = elim (Option-cases (next_attempt m.queue.max_attempts job)) [
    | inl final ↦ rw final (ground arith)
    | inr (again, e) ↦ rw e (ground arith)
  ]

  record_outcome-IsFramed :
      (now : Instant) (job : Job W) (o : Outcome) (m : Mem W D)
      → IsFramed m (record_outcome database now job o m)
  unfolding record_outcome
  record_outcome-IsFramed now job succeeded m = add_completed_job-IsFramed job m
  record_outcome-IsFramed now job (failed e) m =
      add_failed_job-IsFramed now (record job { exception = e }) m
  record_outcome-IsFramed now job (panicked e) m =
      add_failed_job-IsFramed now (record job { exception = codes "panic: " ++ e }) m

  pub run_handler-IsFramed :
      (now : Instant) (job : Job W) (m : Mem W D) → IsFramed m (run_handler database now job m)
  unfolding run_handler
  run_handler-IsFramed now job m =
      let (o, w) = invoke m.queue job m.world in
      let f = record_outcome-IsFramed now job o (record m { world = w }) in
      record {
        senders = f.senders;
        running = f.running;
        closed = f.closed;
        crashed = f.crashed;
        pending = f.pending;
        workers = f.workers;
      }

  pub ran-IsFramed :
      (b : Bool) (now : Instant) (job : Job W) (m : Mem W D)
      → IsFramed m (if b then run_handler database now job m else m)
  ran-IsFramed true now job m = run_handler-IsFramed now job m
  ran-IsFramed false now job m = ground arith

-- The counter is the number of jobs that are being sent or run; a queue that is not closed has not
-- crashed.
pub record IsCounted {W D : Type 0} (m : Mem W D) : Type 0 where
  pub counted :
      m.crashed ≡ false → m.queue.pending_count ≡ wrap64 (pos (length m.senders + length m.running))
  pub alive : m.closed ≡ false → m.crashed ≡ false

-- A queue that was just built, before anything is dispatched.
pub fresh-IsCounted :
    {W D : Type 0} (m : Mem W D)
    → m.queue.pending_count ≡ pos 0
    → m.senders ≡ []
    → m.running ≡ []
    → m.crashed ≡ false
    → IsCounted m
unfolding wrap64
fresh-IsCounted m pending senders running up = record {
  counted = λ _. rw (pending, senders, running);
  alive = λ _. up;
}
