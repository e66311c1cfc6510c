-- ===== src/Reaper/Tick.antt =====
-- `runReaperTick` of api/reaper.go as a whole: its counters, and its end.
pub mod Counters
pub mod Ends
use adele_queue.Base.{ℕ, suc, ◌+◌, ◌≤◌, ◌<◌, ◌≡◌, List, some}
use adele_queue.Base.Text.{Text}
use adele_queue.Redis.{RedisApi, scan_page, any_locked}
use adele_queue.Reaper.Run.{Tally}

-- The scanned keys that a tick has resolved.
abbrev pub resolved : Tally → ℕ
resolved t = t.requeues + t.permafails + t.recent + t.dupes

-- What `n` more keys may do to the counters: at most `n` are scanned, each of them is resolved in
-- one way at most, and each adds one error at most; one that is resolved adds an error only where
-- it is a duplicate.
pub record Counts (n : ℕ) (t t' : Tally) : Type 0 where
  pub within : t'.scanned ≤ t.scanned + n
  pub each :
      resolved t' + t'.errs + t.scanned + t.dupes ≤ resolved t + t.errs + t'.scanned + t'.dupes
  pub once : resolved t' + t.scanned ≤ resolved t + t'.scanned

-- What holds of the counters between two pages, with at most `e` errors of the scan itself.
pub record IsBalanced (e : ℕ) (t : Tally) : Type 0 where
  pub resolved_scanned : resolved t ≤ t.scanned
  pub errors_scanned : resolved t + t.errs ≤ t.scanned + t.dupes + e

-- The cursors of a server's SCAN count down to 0, by some rank.
abbrev pub CountsDown : {S : Type 0} → RedisApi S → (ℕ → ℕ) → Type 0
CountsDown {S} api rank =
    (cursor next : ℕ) (ks : List Text) (s : S)
    → api.scan any_locked cursor s ≡ scan_page (some (suc next)) ks
    → rank (suc next) < rank cursor
