-- ===== src/Dispatch/Schedule.antt =====
-- What `Dispatch` of api/queue.go makes of `DispatchAt`, and what a first retry makes of the
-- result.
use adele_queue.Base.{ℕ, ◌*◌, ◌<◌, ◌≡◌, ◌≢◌, ap, ◌∙◌, arith, false, none, some, []}
use adele_queue.Base.Int.{pos, mul64-pos}
use adele_queue.Base.Text.{Text}
use adele_queue.Time.{
  Instant, Stamp, unset, malformed, parse, format, add_duration, seconds-pos, is_unset,
}
use adele_queue.Job.{Job}
use adele_queue.Queue.{Queue}
use adele_queue.Stamping.{invalid_dispatch_at, stamp_job}
use adele_queue.Memory.{Mem}
use adele_queue.Memory.Dispatch.{default_queue, enqueue, dispatch_memory}
use adele_queue.Redis.{RedisApi, IsReliable}
use adele_queue.Redis.Handle.{retried_job}
use adele_queue.Dispatch.{redis_job, dispatch_redis}

default_queue-dispatch_at :
    {W : Type 0} (q : Queue W) (job : Job W) → (default_queue q job).dispatch_at ≡ job.dispatch_at
unfolding default_queue
default_queue-dispatch_at q job = ground arith

refused_by_memory :
    {W D : Type 0} (id : Text) (now later : Instant) (job : Job W) (x : Text) (m : Mem W D)
    → job.dispatch_at ≡ malformed x
    → dispatch_memory id now later job m ≡ (m, ([], some (invalid_dispatch_at (malformed x))))
unfolding dispatch_memory stamp_job enqueue
refused_by_memory id now later job x m bad =
    ap (λ (t : Stamp). enqueue later t (default_queue m.queue (stamp_job id now job)) m)
      (default_queue-dispatch_at m.queue (stamp_job id now job) ∙ bad)

-- A `DispatchAt` that does not parse is refused by the memory backend, which is left unchanged. The
-- redis backend, on a server that carries out its commands, accepts the job, with a `RetryAfter`
-- that its own scanner cannot parse.
pub dispatch_malformed :
    {S W D : Type 0} (api : RedisApi S) (reliable : IsReliable api) (lower : ℕ → ℕ) (id : Text)
    (now later : Instant) (job : Job W) (x : Text) (m : Mem W D) (s : S)
    → job.dispatch_at ≡ malformed x
    → (dispatch_memory id now later job m ≡ (m, ([], some (invalid_dispatch_at (malformed x)))))
      × ((dispatch_redis api lower m.queue id now job s).1 ≡ (id, none))
      × (parse (redis_job api lower m.queue id now job).retry_after ≡ none)
unfolding stamp_job dispatch_redis redis_job
dispatch_malformed api reliable lower id now later job x m s bad =
    (refused_by_memory id now later job x m bad, rw (reliable.hset_accepted), rw bad)

-- A job that was dispatched carries a `RetryAfter`, at once or from its schedule.
stamp_job-retry_after :
    {W : Type 0} (id : Text) (now : Instant) (job : Job W)
    → (stamp_job id now job).retry_after ≢ unset
unfolding stamp_job format
stamp_job-retry_after id now job = ground arith

is_unset_of_ne : (t : Stamp) → t ≢ unset → is_unset t ≡ false
is_unset_of_ne t h = ground arith

no_wait : (t : Instant) → add_duration t (pos 0) ≡ t
unfolding add_duration
no_wait t = omega arith

-- The redis backend's backoff: where `RetryAfter` is set, the next attempt is due 5 seconds for
-- each retry so far after the failure, and where it is not, 5 seconds after it.
retried_job-retry_after :
    {W : Type 0} (clock : ℕ → Instant) (job : Job W) (c : ℕ)
    → job.retry_counter ≡ pos c
    → c * 5 < 9223372036
    → job.retry_after ≢ unset
    → (retried_job clock job).retry_after
      ≡ format (add_duration (clock 0) (pos (c * 5 * 1000000000)))
unfolding retried_job
retried_job-retry_after clock job c counter small seeded = rw (
  is_unset_of_ne job.retry_after seeded,
  counter,
  mul64-pos c 5 (omega arith),
  seconds-pos (c * 5) small,
)

-- So the first retry of a job that was dispatched on the redis backend, with its counter at 0, is
-- due at the very second in which it failed: the initial backoff of 5 seconds is for jobs that were
-- not dispatched.
pub first_retry_at_once :
    {W : Type 0} (id : Text) (now : Instant) (clock : ℕ → Instant) (job : Job W)
    → job.retry_counter ≡ pos 0
    → (retried_job clock (stamp_job id now job)).retry_after ≡ format (clock 0)
unfolding stamp_job
first_retry_at_once id now clock job fresh =
    retried_job-retry_after clock (stamp_job id now job) 0 fresh (omega arith)
      (stamp_job-retry_after id now job)
    ∙ ap format (no_wait (clock 0))
