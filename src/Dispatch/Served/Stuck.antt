-- ===== src/Dispatch/Served/Stuck.antt =====
-- A schedule that does not parse, from `Dispatch` of api/queue.go to the scan of api/redis.go.
use adele_queue.Base.{ℕ, ◌≡◌, ap, ◌∙◌, true, none, some, []}
use adele_queue.Base.Text.{Text}
use adele_queue.Time.{Instant, malformed}
use adele_queue.Job.{Job, add_flat}
use adele_queue.Database.{Database}
use adele_queue.Queue.{contains}
use adele_queue.Key.{pending, locked, key, IsLowerTable}
use adele_queue.Key.Split.{NoColon}
use adele_queue.Memory.{Mem}
use adele_queue.Memory.Dispatch.{dispatch_memory}
use adele_queue.Redis.{RedisApi, IsReliable, Node}
use adele_queue.Redis.View.{Keyspace, moved, view}
use adele_queue.Redis.Scan.{returned, scan_key}
use adele_queue.Redis.Scan.Claim.{locked_hash, claim_unreadable}
use adele_queue.Stamping.{invalid_dispatch_at}
use adele_queue.Dispatch.{redis_job, dispatch_redis}
use adele_queue.Dispatch.Keyed.{dispatch_redis_lem}
use adele_queue.Dispatch.Schedule.{dispatch_malformed}
use adele_queue.Dispatch.Served.{sent, dispatched, scan_key_read, held, moved_sent}

module _ {S W D E : Type 0} (api : RedisApi S) (reliable : IsReliable api) (database : Database D)
    (lower : ℕ → ℕ) (table : IsLowerTable lower) (m : Mem W E) (id : Text) (now : Instant)
    (job : Job W) (n : Node S W D) where
  -- The memory backend refuses a job whose `DispatchAt` does not parse, and is left unchanged. The
  -- redis backend accepts it without an error; and the worker that finds its key does not run it:
  -- the job ends up under its locked key, stamped, every other key as it was before the dispatch,
  -- and the function of the scan returns. The server carries out its commands, the default channel
  -- is a configured one, and neither it nor the id holds a colon.
  pub scan_key-dispatch_malformed :
      (later : Instant) (x : Text) (clock : ℕ → Instant)
      → job.dispatch_at ≡ malformed x
      → contains m.queue.queue_channels m.queue.queue_channel_default ≡ true
      → NoColon m.queue.queue_channel_default
      → NoColon id
      → let stored_job = redis_job api lower m.queue id now job in
        let stored = (dispatch_redis api lower m.queue id now job n.server).0 in
        let (n', flow) =
          scan_key api database m.queue
            (key pending stored_job.queue id)
            clock
            (record n { server = stored }) in
        (dispatch_memory id now later job m ≡ (m, ([], some (invalid_dispatch_at (malformed x)))))
        × ((dispatch_redis api lower m.queue id now job n.server).1 ≡ (id, none))
        × ((k : Text)
            → view api n'.server k
              ≡ moved
                  (key pending stored_job.queue id)
                  (key locked stored_job.queue id)
                  (locked_hash clock (add_flat stored_job))
                  (view api n.server)
                  k)
        × (n'.world ≡ n.world)
        × (flow ≡ returned)
  unfolding add_flat
  scan_key-dispatch_malformed later x clock bad listed plain plain_id =
      let q = m.queue in
      let stored_job = sent api reliable database lower table q id now job n in
      let keyed =
        dispatch_redis_lem api reliable lower table q id now job n.server listed plain plain_id in
      let (refused, accepted, unread) =
        dispatch_malformed api reliable lower id now later job x m n.server bad in
      let (keys, world, ends) =
        claim_unreadable api reliable database q stored_job.queue id clock (add_flat stored_job)
          (dispatched api reliable database lower table q id now job n)
          (held api reliable database lower table q id now job n keyed.0) unread in
      rw (scan_key_read api reliable database lower table q id now job n clock keyed.3) (
        refused,
        accepted,
        λ k.
            keys k
            ∙ ap (λ (ks : Keyspace). ks k)
                (moved_sent api reliable database lower table q id now job n clock keyed.0),
        world,
        ends,
      )
