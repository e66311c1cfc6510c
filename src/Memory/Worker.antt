-- ===== src/Memory/Worker.antt =====
-- api/queue.go: `runHandler`, and the body of the memory worker's loop.
use adele_queue.Base.{Bool, ◌||◌, ◌++◌, Option, none, some, if◌then◌else◌}
use adele_queue.Base.Int.{negsuc, add64}
use adele_queue.Base.Text.{codes}
use adele_queue.Time.{Instant}
use adele_queue.Handler.{Outcome, succeeded, failed, panicked, Handler, RegisteredHandler}
use adele_queue.Job.{Job}
use adele_queue.Database.{Database}
use adele_queue.Queue.{Queue}
use adele_queue.Registry.{is_some, lookup, has_registered_handler}
use adele_queue.Memory.{Mem, add_failed_job, add_completed_job}

-- `job.Handler(job.Payload)`; a nil function panics.
call_inline : {W : Type 0} → Option (Handler W) → Job W → W → Outcome × W
call_inline none job w =
    (panicked (codes "runtime error: invalid memory address or nil pointer dereference"), w)
call_inline (some f) job w = f job.payload w

-- The `switch`: the context-aware entry, the plain entry, the job's own handler.
select : {W : Type 0} → Queue W → Option (RegisteredHandler W) → Job W → W → Outcome × W
unfolding call_inline
select q none job w = call_inline job.handler job w
select q (some reg) job w = elim reg.ctx [
  | some f ↦ f q.cancelled job.payload w
  | none ↦ elim reg.plain [ some f ↦ f job.payload w | none ↦ call_inline job.handler job w ]
]

unfoldable pub invoke : {W : Type 0} → Queue W → Job W → W → Outcome × W
unfolding select lookup
invoke q job w = select q (lookup job.name q.handlers) job w

-- Whether a worker runs the job, or passes it over.
unfoldable pub runnable : {W : Type 0} → Queue W → Job W → Bool
runnable q job = is_some job.handler || has_registered_handler q job.name

-- `q.pendingCount.Add(-1)`
unfoldable pub release : {W D : Type 0} → Mem W D → Mem W D
release m = record m {
  queue = record m.queue { pending_count = add64 m.queue.pending_count (negsuc 0) };
}

module _ {W D : Type 0} (database : Database D) where
  -- What is recorded of a call; the deferred recovery turns a panic into a failure.
  unfoldable pub record_outcome : Instant → Job W → Outcome → Mem W D → Mem W D
  record_outcome now job succeeded m = add_completed_job database job m
  record_outcome now job (failed e) m = add_failed_job database now (record job { exception = e }) m
  record_outcome now job (panicked e) m =
      add_failed_job database now (record job { exception = codes "panic: " ++ e }) m

  -- `now` is the moment at which the handler has returned.
  unfoldable pub run_handler : Instant → Job W → Mem W D → Mem W D
  unfolding record_outcome
  run_handler now job m =
      let (o, w) = invoke m.queue job m.world in record_outcome now job o (record m { world = w })

  -- A job that a worker has received, until the worker is free again.
  unfoldable pub process : Instant → Job W → Mem W D → Mem W D
  process now job m = release (if runnable m.queue job then run_handler now job m else m)
