-- ===== src/Redis/Handle.antt =====
-- api/redis.go, `handleRedisJob`: what becomes of a job that a worker has locked.
pub mod Transitions
pub mod Called
use adele_queue.Base.{
  ℕ, Bool, false, ◌&&◌, ◌||◌, [], ◌∷◌, ◌++◌, Option, none, some, ◌==◌, if◌then◌else◌,
}
use adele_queue.Base.Int.{pos, add64, mul64, ltb_ℤ}
use adele_queue.Base.Text.{Text, codes}
use adele_queue.Time.{Instant, seconds, format, add_duration, is_unset}
use adele_queue.Handler.{Outcome, succeeded, failed, panicked, RegisteredHandler}
use adele_queue.Job.{Job, add_flat, row_of}
use adele_queue.Database.{Database, failed_jobs}
use adele_queue.Queue.{Queue}
use adele_queue.Registry.{lookup}
use adele_queue.Key.{locked, complete, pending, key}
use adele_queue.Key
use adele_queue.Redis.{RedisApi, Node, all_fields, status_field, move_job}

-- `%q` of a printable name.
quote : Text → Text
quote [] = b'"' ∷ []
quote (c ∷ s) = if c == b'"' || c == 92 then 92 ∷ c ∷ quote s else c ∷ quote s

-- What the call of the handler comes to: `res == 0`, or the error that is kept, and whether the job
-- may still be retried.
pub data Verdict : Type 0 where
  done : Verdict
  errored : Text → Verdict
  unhandled : Text → Verdict

verdict : Outcome → Verdict
verdict succeeded = done
verdict (failed e) = errored e
verdict (panicked e) = errored (codes "handler panic: " ++ e)

no_handler : {W : Type 0} → Job W → W → Verdict × W
unfolding quote
no_handler job w =
    (unhandled (codes "no handler registered for " ++ b'"' ∷ quote (codes job.name)), w)

-- The entry of the registry: the context-aware handler, the plain one, or none.
call_entry : {W : Type 0} → Bool → Option (RegisteredHandler W) → Job W → W → Verdict × W
unfolding no_handler verdict
call_entry cancelled none job w = no_handler job w
call_entry cancelled (some reg) job w = elim reg.ctx [
  | some f ↦ (let (o, w') = f cancelled job.payload w in (verdict o, w'))
  | none ↦ elim reg.plain [
    | some f ↦ (let (o, w') = f job.payload w in (verdict o, w'))
    | none ↦ no_handler job w
  ]
]

unfoldable pub call_handler : {W : Type 0} → Queue W → Job W → W → Verdict × W
unfolding call_entry lookup
call_handler q job w = call_entry q.cancelled (lookup job.name q.handlers) job w

-- The job as each branch stores it. `clock n` is the n-th reading of the clock after the handler.
unfoldable pub completed_job : {W : Type 0} → (ℕ → Instant) → Job W → Job W
completed_job clock job = record job {
  completed_at = format (clock 0);
  status = "completed";
  exception = [];
}

unfoldable pub retried_job : {W : Type 0} → (ℕ → Instant) → Job W → Job W
retried_job clock job = record job {
  retry_after =
      if is_unset job.retry_after
      then format (add_duration (clock 0) (seconds (pos 5)))
      else format (add_duration (clock 0) (seconds (mul64 job.retry_counter (pos 5))));
  retry_counter = add64 job.retry_counter (pos 1);
  completed_at = format (clock 1);
  status = "pending";
}

unfoldable pub failed_job : {W : Type 0} → (ℕ → Instant) → Text → Job W → Job W
failed_job clock e job = record job {
  failed_at = format (clock 0);
  exception = e;
  created_at = clock 1;
  updated_at = clock 2;
  status = "failed";
}

-- `cachedJob.Retry && cachedJob.RetryCounter < q.MaxAttempts`
unfoldable pub retriable : {W : Type 0} → Queue W → Job W → Bool
retriable q job = job.retry && ltb_ℤ job.retry_counter q.max_attempts

module _ {S W D : Type 0} (api : RedisApi S) (database : Database D) where
  unfoldable pub fail_job :
      Queue W → Text → Text → (ℕ → Instant) → Text → Job W → Node S W D → Node S W D
  fail_job q queue id clock e job n =
      let j = failed_job clock e job in
      let (s, x) = move_job api queue id Key.failed j n.server in
      elim x [
        | some _ ↦ record n { server = s }
        | none ↦
            if q.db
            then record n { server = s; db = (database.insert failed_jobs (row_of j) n.db).0 }
            else record n { server = s }
      ]

  unfoldable pub settle :
      Queue W → Text → Text → (ℕ → Instant) → Verdict → Job W → Node S W D → Node S W D
  settle q queue id clock done job n = record n {
    server = (move_job api queue id complete (completed_job clock job) n.server).0;
  }
  settle q queue id clock (errored e) job n =
      if retriable q job
      then record n {
        server =
            (api.hset (key pending queue id) (all_fields (add_flat (retried_job clock job)))
              n.server).0;
      }
      else fail_job q queue id clock e job n
  settle q queue id clock (unhandled e) job n =
      fail_job q queue id clock e (record job { retry = false }) n

  -- `id` is the one read from the key, `job.id` the one stored in the hash.
  unfoldable pub handle_redis_job :
      Queue W → Text → Job W → Text → (ℕ → Instant) → Node S W D → Node S W D
  handle_redis_job q queue job id clock n =
      let (s, e) = api.hset (key locked queue job.id) (status_field "processing") n.server in
      elim e [
        | some _ ↦ record n { server = s }
        | none ↦
            (let (v, w) = call_handler q job n.world in
              settle q queue id clock v job (record n { server = s; world = w }))
      ]
