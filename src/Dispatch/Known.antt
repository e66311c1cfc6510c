-- ===== src/Dispatch/Known.antt =====
-- `Dispatch` and `Depth` of api/queue.go on the queues that `buildQueue` makes.
use adele_queue.Base.{◌≢◌, arith, eq_iff, ℕ, Option, some, none, inl, inr}
use adele_queue.Base.Text.{Text}
use adele_queue.Time.{Instant, Stamp, unset, at, malformed}
use adele_queue.Job.{Job}
use adele_queue.Queue.{Queue}
use adele_queue.Queue.Build.{IsReady}
use adele_queue.Redis.{RedisApi}
use adele_queue.Stamping.{DispatchError, unknown_backend, stamp_job}
use adele_queue.Memory.{Mem}
use adele_queue.Memory.Dispatch.{default_queue, enqueue, dispatch_memory}
use adele_queue.Dispatch.{Service, dispatch_redis, dispatch}

enqueue_known :
    {W D : Type 0} (later : Instant) (t : Stamp) (job : Job W) (m : Mem W D)
    → (enqueue later t job m).1.1 ≢ some unknown_backend
unfolding enqueue
enqueue_known later unset job m = ground arith
enqueue_known later (at when) job m = ground arith
enqueue_known later (malformed s) job m = ground arith

-- The error that a call of `Dispatch` returns.
abbrev pub error_of :
    {A : Type 0} → Option (A × (Text × Option DispatchError)) → Option DispatchError
error_of none = none
error_of (some r) = r.1.1

module _ {S : Type 0} (api : RedisApi S) (lower : ℕ → ℕ) where
  dispatch_redis_known :
      {W : Type 0} (q : Queue W) (id : Text) (now : Instant) (job : Job W) (s : S)
      → (dispatch_redis api lower q id now job s).1.1 ≢ some unknown_backend
  unfolding dispatch_redis
  dispatch_redis_known q id now job s = ground arith

  -- On a queue that is ready, as one that was built is, `Dispatch` does not fail for an unknown
  -- backend, whatever the job and the server's answers are.
  pub dispatch_of_IsReady :
      {W D : Type 0} (id : Text) (now later : Instant) (job : Job W) (sv : Service S W D)
      → IsReady sv.mem.queue
      → error_of (dispatch api lower id now later job sv) ≢ some unknown_backend
  unfolding dispatch dispatch_memory
  dispatch_of_IsReady id now later job sv ready = elim ready.backend_known [
    | inl memory ↦ ground (
      arith,
      memory,
      eq_iff sv.mem.queue.backend "memory",
      enqueue_known later (default_queue sv.mem.queue (stamp_job id now job)).dispatch_at
          (default_queue sv.mem.queue (stamp_job id now job)) sv.mem,
    )
    | inr redis ↦ ground (
      arith,
      redis,
      eq_iff sv.mem.queue.backend "redis",
      dispatch_redis_known sv.mem.queue id now job sv.server,
      enqueue_known later (default_queue sv.mem.queue (stamp_job id now job)).dispatch_at
          (default_queue sv.mem.queue (stamp_job id now job)) sv.mem,
    )
  ]
