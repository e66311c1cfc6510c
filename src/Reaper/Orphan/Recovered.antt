-- ===== src/Reaper/Orphan/Recovered.antt =====
-- The end of a job whose worker is lost while it holds the lock (api/redis.go and api/reaper.go).
use adele_queue.Base.{ℕ, ◌+◌, ◌*◌, ◌/◌, ◌≤◌, ◌<◌, ◌≡◌, arith, String, some}
use adele_queue.Base.Int.{pos}
use adele_queue.Base.Text.{Text}
use adele_queue.Time.{Instant, second}
use adele_queue.Handler.{Handler}
use adele_queue.Database.{Database}
use adele_queue.Queue.{Queue}
use adele_queue.Key.{pending, locked, complete, key}
use adele_queue.Key.Split.{NoColon}
use adele_queue.Redis.{RedisApi, IsReliable, Node}
use adele_queue.Redis.Visits.{visits, Spaced, Serves, IsWaiting, IsEnded}
use adele_queue.Redis.Visits.Life.{visits_of_succeeding_after}
use adele_queue.Redis.Steps.{arriving, steps}
use adele_queue.Memory.Attempts.Until.{SucceedsAfter}
use adele_queue.Reaper.Run.{Tally, reap_key}
use adele_queue.Reaper.Orphan.{reaped-IsWaiting, lost-IsOrphan, reap_key_read}

module _ {S W D : Type 0} (api : RedisApi S) (reliable : IsReliable api) (database : Database D)
    (q : Queue W) (queue id : Text) (name : String) (h : Handler W) (p : Text) (w : W) (n : ℕ)
    (serves : Serves q name h n) where
  -- A job with `Retry` is not lost with its worker. Where a worker ends right after the RENAME and
  -- the stamp of the lock, the reaper that meets the locked key `LockTimeout` seconds later makes
  -- the job wait again; and where the handler then fails at each of `k` calls and succeeds at the
  -- next, more than `k` visits of other workers run it `k + 1` times and leave it under its
  -- completed key. It was to run for the first time, its counter 0, its `RetryAfter` a time, and
  -- its hash with a payload and the id that its key names; it has no `LockFor` of its own, and
  -- `MaxAttempts` is more than `k` and than 1. The first of those visits comes more than 5 seconds
  -- after the reaper, and each other one more than `(MaxAttempts + 1) * 5` seconds after the run
  -- before it. The server carries out its commands, the queue serves the job by a plain handler,
  -- `MaxAttempts` is less than 1000000000, `LockTimeout` is not negative and less than 9223372036,
  -- and neither the channel nor the id holds a colon.
  pub orphan_recovered :
      (t limit k v : ℕ) (clock readings : ℕ → Instant) (clocks : ℕ → ℕ → Instant) (tally : Tally)
      (m : Node S W D)
      → NoColon queue
      → NoColon id
      → q.lock_timeout ≡ pos limit
      → limit < 9223372036
      → (d : IsWaiting api queue id name h p w 0 0 t m) → d.hash.lock_for ≡ pos 0
      → clock 0 + limit * second ≤ readings 0
      → SucceedsAfter h (some p) k w
      → k < n
      → 1 < n
      → k < v
      → readings 1 + 5 * second < clocks 0 1
      → Spaced n clocks
      → let lost = (steps api database q queue id clock 2 arriving m).0 in
        let reaped = (reap_key api database q readings (key locked queue id) lost tally).0 in
        IsEnded api queue id name h p w complete "completed"
          (k + 1)
          (visits api database q (key pending queue id) v clocks reaped)
  orphan_recovered t limit k v clock readings clocks tally m plain plain_id set small d own old
        until below more enough after spaced =
      let lost = (steps api database q queue id clock 2 arriving m).0 in
      let (u, again, soon) =
        reaped-IsWaiting api reliable database q queue id name h p w n serves 0 0
          (clock 0 / second * second) limit readings (record tally { scanned = tally.scanned + 1 })
          lost set small (omega arith) more
          (lost-IsOrphan api reliable database q queue id name h p w n serves 0 0 t clock m d
            own) in
      rw
        (reap_key_read api reliable database q queue id name h p w n serves readings tally lost
          plain plain_id)
        (visits_of_succeeding_after api reliable database q queue id name h p w n serves plain
          plain_id k v 0 1 u clocks _ again until spaced (omega arith) (omega arith) (omega arith)
          (omega arith))
