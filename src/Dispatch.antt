-- ===== src/Dispatch.antt =====
-- api/queue.go: `Dispatch`, `DispatchIn` and `Depth` on both backends.
pub mod Keyed
pub mod Schedule
pub mod Depth
pub mod Known
pub mod Served
pub mod Life
use adele_queue.Base.{
  ℕ, zero, suc, ◌+◌, Bool, List, [], ◌∷◌, Option, none, some, str_eq, length, if◌then◌else◌,
}
use adele_queue.Base.Int.{ℤ, pos, ltb_ℤ, wrap64}
use adele_queue.Base.Text.{Text, text_eq}
use adele_queue.Time.{Instant, Duration, format, add_duration}
use adele_queue.Job.{Job, add_flat}
use adele_queue.Queue.{Queue, contains}
use adele_queue.Key.{pending, key, redis_keyspace_formater}
use adele_queue.Redis.{
  RedisApi, RedisError, all_fields, scan_error, scan_malformed, scan_page, pending_of,
}
use adele_queue.Stamping.{DispatchError, redis_refused, unknown_backend, stamp_job}
use adele_queue.Memory.{Mem}
use adele_queue.Memory.Dispatch.{dispatch_memory, depth_memory}

-- The channel of a job on the redis backend.
unfoldable pub choose_channel : (ℕ → ℕ) → {W : Type 0} → Queue W → Text → Text
choose_channel lower q c =
    if text_eq c []
    then q.queue_channel_default
    else (let channel = redis_keyspace_formater lower c in
        if contains q.queue_channels channel then channel else q.queue_channel_default)

-- A queue's process and its redis server.
pub record Service (S W D : Type 0) : Type 0 where
  pub mem : Mem W D
  pub server : S

abbrev dispatch_error : Option RedisError → Option DispatchError
dispatch_error none = none
dispatch_error (some e) = some redis_refused

module _ {S : Type 0} (api : RedisApi S) (lower : ℕ → ℕ) where
  -- The job as it is stored.
  unfoldable pub redis_job : {W : Type 0} → Queue W → Text → Instant → Job W → Job W
  redis_job q id now job =
      let j = stamp_job id now job in record j { queue = choose_channel lower q j.queue }

  unfoldable pub dispatch_redis :
      {W : Type 0} → Queue W → Text → Instant → Job W → S → S × (Text × Option DispatchError)
  dispatch_redis q id now job s =
      let j = redis_job q id now job in
      let (s', e) = api.hset (key pending j.queue j.id) (all_fields (add_flat j)) s in
      (s', (j.id, dispatch_error e))

  -- `none` is the panic of a redis queue whose pool is nil.
  unfoldable pub dispatch :
      {W D : Type 0}
      → Text
      → Instant
      → Instant
      → Job W
      → Service S W D
      → Option (Service S W D × (Text × Option DispatchError))
  dispatch id now later job sv =
      let q = sv.mem.queue in
      if str_eq q.backend "memory"
      then (let (m, r) = dispatch_memory id now later job sv.mem in some (record sv { mem = m }, r))
      else if str_eq q.backend "redis"
      then (if q.redis.pool
          then (let (s, r) = dispatch_redis q id now job sv.server in
              some (record sv { server = s }, r))
          else none)
      else some (sv, ([], some unknown_backend))

  -- `before` is the reading of the clock that `DispatchIn` makes itself.
  unfoldable pub dispatch_in :
      {W D : Type 0}
      → Text
      → Instant
      → Instant
      → Instant
      → Job W
      → Duration
      → Service S W D
      → Option (Service S W D × (Text × Option DispatchError))
  dispatch_in id before now later job delay sv =
      dispatch id now later
        (if ltb_ℤ (pos 0) delay
          then record job { dispatch_at = format (add_duration before delay) }
          else job)
        sv

-- The outcome of `Depth`.
pub data DepthResult : Type 0 where
  counted : ℤ → DepthResult
  no_pool no_connection unknown_queue_backend out_of_fuel : DepthResult
  scan_failed : Text → DepthResult

-- How the SCANs of one channel end.
pub data ChannelCount : Type 0 where
  found : ℕ → ChannelCount
  failed exhausted : ChannelCount

module _ {S : Type 0} (api : RedisApi S) (s : S) where
  -- The inner `for`: SCAN from a cursor until the next cursor is 0.
  unfoldable pub scan_channel : ℕ → Text → ℕ → ℕ → ChannelCount
  scan_channel zero channel cursor total = exhausted
  scan_channel (suc fuel) channel cursor total = elim (api.scan (pending_of channel) cursor s) [
    | scan_error ↦ failed
    | scan_malformed ↦ failed
    | scan_page next keys ↦ elim next [
      | none ↦ failed
      | some c ↦ elim c [
        | zero ↦ found (total + length keys)
        | suc d ↦ scan_channel fuel channel (suc d) (total + length keys)
      ]
    ]
  ]

  -- The outer `for`; the total is an int.
  unfoldable pub scan_channels : ℕ → List Text → ℕ → DepthResult
  scan_channels fuel [] total = counted (wrap64 (pos total))
  scan_channels fuel (channel ∷ channels) total = elim (scan_channel fuel channel 0 total) [
    | found t ↦ scan_channels fuel channels t
    | failed ↦ scan_failed channel
    | exhausted ↦ out_of_fuel
  ]

  -- `connected` is whether the pool's connection has no error.
  unfoldable pub depth : {W D : Type 0} → ℕ → Bool → Mem W D → DepthResult
  depth fuel connected m =
      if str_eq m.queue.backend "memory"
      then counted (depth_memory m)
      else if str_eq m.queue.backend "redis"
      then (if m.queue.redis.pool
          then (if connected then scan_channels fuel m.queue.queue_channels 0 else no_connection)
          else no_pool)
      else unknown_queue_backend
