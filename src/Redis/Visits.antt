-- ===== src/Redis/Visits.antt =====
-- The visits that redis workers pay to the pending key of one job, round after round (api/redis.go,
-- the body of the loop over the keys in `cursorScanRedisDb`).
pub mod Visit
pub mod Life
use adele_queue.Base.{ℕ, zero, suc, ◌+◌, ◌*◌, ◌≤◌, ◌<◌, ◌⊎◌, ◌≡◌, true, String, none, some}
use adele_queue.Base.Int.{pos}
use adele_queue.Base.Text.{Text}
use adele_queue.Time.{Instant, second, parse}
use adele_queue.Handler.{Handler}
use adele_queue.Job.{Hash}
use adele_queue.Database.{Database}
use adele_queue.Queue.{Queue}
use adele_queue.Registry.{lookup}
use adele_queue.Key.{KeyState, pending, complete, key}
use adele_queue.Key
use adele_queue.Redis.{RedisApi, Node}
use adele_queue.Redis.View.{view}
use adele_queue.Redis.Scan.{scan_key}
use adele_queue.Memory.Attempts.Until.{world_after}

module _ {S W D : Type 0} (api : RedisApi S) (database : Database D) (q : Queue W) (k : Text) where
  -- So many visits, one after the other; `clocks i` are the readings of the i-th.
  unfoldable pub visits : ℕ → (ℕ → ℕ → Instant) → Node S W D → Node S W D
  visits zero clocks n = n
  visits (suc m) clocks n =
      visits m (λ i. clocks (suc i)) (scan_key api database q k (clocks 0) n).0

-- Each visit but the first comes more than `(n + 1) * 5` seconds after the handler of the one
-- before.
abbrev pub Spaced : ℕ → (ℕ → ℕ → Instant) → Type 0
Spaced n clocks = (i : ℕ) → clocks i 2 + (n + 1) * 5 * second < clocks (suc i) 1

-- A queue that serves the name with the plain handler `h` and allows `n` attempts.
pub record Serves {W : Type 0} (q : Queue W) (name : String) (h : Handler W) (n : ℕ) : Type 0 where
  pub entry : lookup name q.handlers ≡ some (record { plain = some h; ctx = none })
  pub limit : q.max_attempts ≡ pos n
  pub small : n < 1000000000

module _ {S W D : Type 0} (api : RedisApi S) (queue id : Text) (name : String) (h : Handler W)
    (p : Text) (w : W) where
  -- The job waits under its pending key to run after `t`; it has run `r` times, from the world `w`,
  -- and its counter stands at `c`.
  pub record IsWaiting (r c : ℕ) (t : Instant) (n : Node S W D) : Type 0 where
    pub hash : Hash
    pub held : view api n.server (key pending queue id) ≡ some hash
    pub id_kept : hash.id ≡ id
    pub name_kept : hash.name ≡ name
    pub payload_kept : hash.payload ≡ some p
    pub retries : hash.retry ≡ true
    pub counter : hash.retry_counter ≡ pos c
    pub due : parse hash.retry_after ≡ some t
    pub world_is : n.world ≡ world_after h (some p) r w

  -- The job has left its pending key and stands under the key of the state `st`, with that status;
  -- it has run `c` times.
  pub record IsEnded (st : KeyState) (status : String) (c : ℕ) (n : Node S W D) : Type 0 where
    pub hash : Hash
    pub gone : view api n.server (key pending queue id) ≡ none
    pub held : view api n.server (key st queue id) ≡ some hash
    pub status_is : hash.status ≡ status
    pub world_is : n.world ≡ world_after h (some p) c w

  -- Where a job can be after `m` visits where `n` attempts are allowed: it waits, after at most `n`
  -- runs and one for each visit; it is complete, after at most `n + 1`; or it has failed, after
  -- exactly `n + 1`.
  abbrev pub IsTracked : ℕ → ℕ → Node S W D → Type 0
  IsTracked n m s =
      ((r : ℕ) × (t : Instant) × IsWaiting r r t s × (r ≤ n) × (r ≤ m))
      ⊎ (((r : ℕ) × IsEnded complete "completed" r s × (r ≤ n + 1))
          ⊎ IsEnded Key.failed "failed" (n + 1) s)
