-- ===== src/Pool.antt =====
-- api/queue.go, `Listen`, `worker` and the redis case of `Close`: the goroutines of a queue.
pub mod Drain
use adele_queue.Base.{
  ℕ, zero, suc, ◌+◌, ◌≡◌, Bool, true, List, [], ◌∷◌, ◌++◌, str_eq, if◌then◌else◌,
}
use adele_queue.Base.Int.{pos_part}
use adele_queue.Time.{Instant}
use adele_queue.Database.{Database}
use adele_queue.Queue.{Queue}
use adele_queue.Redis.{RedisApi, Node}
use adele_queue.Redis.Scan.{Worker, scanning, sleeping, paging, ended, dead, scan_round}

-- The goroutines that the process's WaitGroup counts, and `systemShutdown`, which is one for the
-- whole process. A memory worker is in its loop over the channel (Memory/Steps).
pub record Pool : Type 0 where
  pub memory_workers : ℕ
  pub redis_workers : List Worker
  pub reapers : ℕ
  pub shutdown : Bool

abbrev pub replicate {ℓ} : {A : Type ℓ} → ℕ → A → List A
replicate zero a = []
replicate (suc n) a = a ∷ replicate n a

-- `worker` at its start on the redis backend: `Get` of a nil pool panics.
abbrev pub started : {W : Type 0} → Queue W → Worker
started q = if q.redis.pool then scanning 0 0 else dead

-- `Listen`; on a backend that is neither a worker returns at once. `for i := 1; i <= n` makes no
-- round where `n` is negative.
unfoldable pub listen : {W : Type 0} → Queue W → Pool → Pool
listen q p =
    let n = pos_part q.worker_count in
    if str_eq q.backend "memory"
    then record p { memory_workers = p.memory_workers + n }
    else if str_eq q.backend "redis"
    then record p {
      redis_workers = p.redis_workers ++ replicate n (started q);
      reapers = p.reapers + 1;
    }
    else p

-- `Close` on the redis backend, up to its wait for the goroutines, which ends after
-- `ReaperInterval + 5` seconds at the latest.
unfoldable pub close_redis : {W : Type 0} → Queue W → Pool → Queue W × Pool
close_redis q p = (record q { cancelled = true }, record p { shutdown = true })

-- A worker that has ended, or died with the process, makes no step.
abbrev pub IsGoing : Worker → Type 0
IsGoing (scanning frames cursor) = Unit
IsGoing (sleeping frames cursor) = Unit
IsGoing (paging frames cursor ks) = Unit
IsGoing ended = ⊥
IsGoing dead = ⊥

-- One step of any redis worker, from the state of the process's surroundings and its workers.
pub data Turn {S W D : Type 0} (api : RedisApi S) (database : Database D) (q : Queue W)
    (shutdown : Bool) (n n' : Node S W D) (ws ws' : List Worker) : Type 0 where
  turn :
      (before after : List Worker) (v w : Worker) (clocks : ℕ → ℕ → Instant)
      → ws ≡ before ++ v ∷ after
      → IsGoing v
      → scan_round api database q shutdown clocks n v ≡ (n', w)
      → ws' ≡ before ++ w ∷ after
      → Turn api database q shutdown n n' ws ws'

-- So many steps, in any order.
pub data Turns {S W D : Type 0} (api : RedisApi S) (database : Database D) (q : Queue W)
    (shutdown : Bool) : ℕ → Node S W D → Node S W D → List Worker → List Worker → Type 0 where
  none_left : (n : Node S W D) (ws : List Worker) → Turns api database q shutdown zero n n ws ws
  one_more :
      {k : ℕ} {n n' n'' : Node S W D} {ws ws' ws'' : List Worker}
      → Turn api database q shutdown n n' ws ws'
      → Turns api database q shutdown k n' n'' ws' ws''
      → Turns api database q shutdown (suc k) n n'' ws ws''

-- The steps that a worker has left after `Close`, at most: one for each call that is under way, and
-- for the one that has passed the check its SCAN, its page and the call that may follow.
abbrev pub steps_left : Worker → ℕ
steps_left (scanning frames cursor) = frames + 1
steps_left (sleeping frames cursor) = frames + 4
steps_left (paging frames cursor ks) = frames + 3
steps_left ended = 0
steps_left dead = 0

abbrev pub outstanding : List Worker → ℕ
outstanding [] = 0
outstanding (w ∷ ws) = steps_left w + outstanding ws

-- A worker that has passed the check of `systemShutdown`, and has a page before it.
abbrev pub pages_left : Worker → ℕ
pages_left (scanning frames cursor) = 0
pages_left (sleeping frames cursor) = 1
pages_left (paging frames cursor ks) = 1
pages_left ended = 0
pages_left dead = 0

abbrev pub pages : List Worker → ℕ
pages [] = 0
pages (w ∷ ws) = pages_left w + pages ws
