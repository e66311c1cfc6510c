-- ===== src/Redis/Steps.antt =====
-- The visits of api/redis.go one command at a time, for workers that meet the same key at once: the
-- body of the loop over the keys in `cursorScanRedisDb`, with `handleRedisJob` and the helpers.
pub mod Alone
pub mod System
pub mod Pending
pub mod Exclusive
pub mod Calls
use adele_queue.Base.{
  ℕ, zero, suc, ◌+◌, Bool, true, false, ◌&&◌, Option, none, some, ltb, if◌then◌else◌,
}
use adele_queue.Base.Text.{Text}
use adele_queue.Time.{Instant, format, parse}
use adele_queue.Job.{Job, add_flat, row_of}
use adele_queue.Database.{Database, failed_jobs}
use adele_queue.Queue.{Queue}
use adele_queue.Key.{KeyState, pending, locked, complete, key}
use adele_queue.Key
use adele_queue.Redis.{
  RedisApi, Node, value, error, all_fields, locked_at_field, status_field, set_redis_key,
  get_redis_value,
}
use adele_queue.Redis.Handle.{
  Verdict, done, errored, unhandled, call_handler, completed_job, retried_job, failed_job,
  retriable,
}
use adele_queue.Redis.Scan.{Flow, proceed, returned, no_error}

-- Where a worker is in its visit: before the RENAME that claims the job, before the stamp of the
-- lock, before the HGETALL, before the gate, before the call of the handler, before the outcome is
-- stored, before the last RENAME, or done with it.
pub data Place (W : Type 0) : Type 0 where
  arriving renamed stamped : Place W
  loaded marked : Job W → Place W
  called : Verdict → Job W → Place W
  moving : KeyState → Job W → Place W
  finished : Flow → Place W

-- Whether the move of a job to its key of this state is followed by an insert.
abbrev pub is_recorded : KeyState → Bool
is_recorded Key.failed = true
is_recorded st = false

module _ {S W D : Type 0} (api : RedisApi S) (database : Database D) (q : Queue W) (queue id : Text)
    (clock : ℕ → Instant) where
  -- HSET of the whole job on its locked key, on the way to the key of `new`.
  unfoldable store : KeyState → Job W → Node S W D → Node S W D × Place W
  store new job n =
      let (s, e) = api.hset (key locked queue id) (all_fields (add_flat job)) n.server in
      (record n { server = s }, if no_error e then moving new job else finished proceed)

  -- The job behind its gate.
  unfoldable pass : Job W → Option Instant → Node S W D → Node S W D × Place W
  pass job none n = (n, finished returned)
  pass job (some retry_after) n =
      if ltb retry_after (clock 1)
      then (let (s, e) = api.hset (key locked queue job.id) (status_field "processing") n.server in
          (record n { server = s }, if no_error e then marked job else finished proceed))
      else (let (s, e) = set_redis_key api queue id locked pending n.server in
          (record n { server = s }, finished (if no_error e then proceed else returned)))

  -- What is stored of a run with this verdict.
  unfoldable conclude : Verdict → Job W → Node S W D → Node S W D × Place W
  unfolding store
  conclude done job n = store complete (completed_job (λ i. clock (i + 2)) job) n
  conclude (errored e) job n =
      if retriable q job
      then (
        record n {
          server =
              (api.hset (key pending queue id)
                (all_fields (add_flat (retried_job (λ i. clock (i + 2)) job))) n.server).0;
        },
        finished proceed,
      )
      else store Key.failed (failed_job (λ i. clock (i + 2)) e job) n
  conclude (unhandled e) job n =
      store Key.failed (failed_job (λ i. clock (i + 2)) e (record job { retry = false })) n

  -- The last RENAME, and the insert into the table of failed jobs.
  unfoldable move : KeyState → Job W → Node S W D → Node S W D × Place W
  move new job n =
      let (s, e) = set_redis_key api queue id locked new n.server in
      (
        if no_error e && is_recorded new && q.db
            then record n { server = s; db = (database.insert failed_jobs (row_of job) n.db).0 }
            else record n { server = s },
        finished proceed,
      )

  -- One step of a worker: at most one command, or the call of the handler.
  unfoldable pub step : Place W → Node S W D → Node S W D × Place W
  unfolding store pass conclude move
  step arriving n =
      let (s, e) = set_redis_key api queue id pending locked n.server in
      (record n { server = s }, if no_error e then renamed else finished proceed)
  step renamed n = (
    record n {
      server = (api.hset (key locked queue id) (locked_at_field (format (clock 0))) n.server).0;
    },
    stamped,
  )
  step stamped n = elim (get_redis_value api queue id locked n.server) [
    | error e ↦ (n, finished returned)
    | value job ↦ (n, loaded job)
  ]
  step (loaded job) n = pass job (parse job.retry_after) n
  step (marked job) n =
      let (v, w) = call_handler q job n.world in (record n { world = w }, called v job)
  step (called v job) n = conclude v job n
  step (moving new job) n = move new job n
  step (finished f) n = (n, finished f)

  -- So many steps of a worker that is not interrupted.
  unfoldable pub steps : ℕ → Place W → Node S W D → Node S W D × Place W
  steps zero at n = (n, at)
  steps (suc k) at n = let (n', at') = step at n in steps k at' n'
