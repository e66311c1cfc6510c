-- ===== src/Redis/Scan.antt =====
-- api/redis.go, `cursorScanRedisDb`: the rounds of a redis worker.
pub mod Claim
use adele_queue.Base.{
  ℕ, zero, suc, ◌+◌, Bool, true, false, List, [], ◌∷◌, Option, none, some, ltb, if◌then◌else◌,
}
use adele_queue.Base.Text.{Text}
use adele_queue.Time.{Instant, format, parse}
use adele_queue.Job.{Job}
use adele_queue.Database.{Database}
use adele_queue.Queue.{Queue}
use adele_queue.Key.{pending, locked, key, read_key}
use adele_queue.Redis.{
  RedisApi, value, error, ScanReply, scan_error, scan_malformed, scan_page, any_pending, Node,
  locked_at_field, set_redis_key, get_redis_value,
}
use adele_queue.Redis.Handle.{handle_redis_job}

-- How the body of the loop over the keys ends: it goes on, the function returns, or the process
-- dies of an index out of range.
pub data Flow : Type 0 where
  proceed returned crashed : Flow

abbrev pub no_error : {A : Type 0} → Option A → Bool
no_error none = true
no_error (some a) = false

module _ {S W D : Type 0} (api : RedisApi S) (database : Database D) (q : Queue W) where
  -- The job behind its gate: it runs if the current time is after `RetryAfter`, and goes back to
  -- its pending key if not. A text that does not parse makes the function return.
  unfoldable pub gate :
      Text → Text → (ℕ → Instant) → Job W → Option Instant → Node S W D → Node S W D × Flow
  gate queue id clock job none n = (n, returned)
  gate queue id clock job (some retry_after) n =
      if ltb retry_after (clock 1)
      then (handle_redis_job api database q queue job id (λ i. clock (i + 2)) n, proceed)
      else (let (s, e) = set_redis_key api queue id locked pending n.server in
          (record n { server = s }, if no_error e then proceed else returned))

  -- A job whose key the worker has renamed: its lock is stamped, and its hash read.
  unfoldable pub take : Text → Text → (ℕ → Instant) → Node S W D → Node S W D × Flow
  take queue id clock n =
      let s = (api.hset (key locked queue id) (locked_at_field (format (clock 0))) n.server).0 in
      elim (get_redis_value api queue id locked s) [
        | error e ↦ (record n { server = s }, returned)
        | value job ↦ gate queue id clock job (parse job.retry_after) (record n { server = s })
      ]

  -- The body for a queue and an id: RENAME claims the job, and an error of it is passed over.
  unfoldable pub claim : Text → Text → (ℕ → Instant) → Node S W D → Node S W D × Flow
  claim queue id clock n =
      let (s, e) = set_redis_key api queue id pending locked n.server in
      if no_error e
      then take queue id clock (record n { server = s })
      else (record n { server = s }, proceed)

  unfoldable pub scan_key : Text → (ℕ → Instant) → Node S W D → Node S W D × Flow
  scan_key k clock n = elim (read_key k) [
    | none ↦ (n, crashed)
    | some (queue, id) ↦ claim queue id clock n
  ]

  -- The loop over one page. `clocks i` are the readings for the i-th key from here.
  unfoldable pub scan_keys : (ℕ → ℕ → Instant) → List Text → Node S W D → Node S W D × Flow
  scan_keys clocks [] n = (n, proceed)
  scan_keys clocks (k ∷ ks) n =
      let (n', f) = scan_key k (clocks 0) n in
      elim f [
        | proceed ↦ scan_keys (λ i. clocks (suc i)) ks n'
        | returned ↦ (n', returned)
        | crashed ↦ (n', crashed)
      ]

-- A worker: the calls of `cursorScanRedisDb` that wait for an inner one, each to go on from cursor
-- 0, and where the innermost stands: before the check of `systemShutdown`, with its cursor; past
-- it, in the sleep before the SCAN of that cursor; or past the SCAN, before the loop over the keys
-- of the page, with the next cursor. It may have ended, or have taken the process down.
pub data Worker : Type 0 where
  scanning sleeping : ℕ → ℕ → Worker
  paging : ℕ → Option ℕ → List Text → Worker
  ended dead : Worker

-- The innermost call returns.
unfoldable pub unwind : ℕ → Worker
unwind zero = ended
unwind (suc frames) = scanning frames 0

-- The end of a round: at cursor 0 the function calls itself.
unfoldable pub after_page : ℕ → Option ℕ → Flow → Worker
after_page frames none proceed = scanning (suc frames) 0
after_page frames (some zero) proceed = scanning (suc frames) 0
after_page frames (some (suc c)) proceed = scanning frames (suc c)
after_page frames cursor returned = unwind frames
after_page frames cursor crashed = dead

-- What the innermost call makes of the reply to SCAN.
unfoldable pub scan_reply : ℕ → ScanReply → Worker
unfolding unwind
scan_reply frames scan_error = unwind frames
scan_reply frames scan_malformed = unwind frames
scan_reply frames (scan_page cursor ks) = paging frames cursor ks

module _ {S W D : Type 0} (api : RedisApi S) (database : Database D) (q : Queue W) where
  -- A step of a worker in its `for`; `shutdown` is `systemShutdown` at the time. Other workers, the
  -- reaper and `Close` may come between the check, the SCAN and the keys of its page.
  unfoldable pub scan_round : Bool → (ℕ → ℕ → Instant) → Node S W D → Worker → Node S W D × Worker
  unfolding scan_reply after_page
  scan_round shutdown clocks n ended = (n, ended)
  scan_round shutdown clocks n dead = (n, dead)
  scan_round true clocks n (scanning frames cursor) = (n, unwind frames)
  scan_round false clocks n (scanning frames cursor) = (n, sleeping frames cursor)
  scan_round shutdown clocks n (sleeping frames cursor) =
      (n, scan_reply frames (api.scan any_pending cursor n.server))
  scan_round shutdown clocks n (paging frames cursor ks) =
      let (n', f) = scan_keys api database q clocks ks n in (n', after_page frames cursor f)
