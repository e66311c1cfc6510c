-- ===== src/Reaper/Loop.antt =====
-- api/reaper.go, `reapStaleLocks`: the reaper's goroutine.
use adele_queue.Base.{
  ℕ, zero, suc, ◌+◌, ◌%◌, ◌<◌, ◌≡◌, refl, arith, Bool, true, false, ◌||◌, Option, none, some,
}
use adele_queue.Time.{Instant}
use adele_queue.Database.{Database}
use adele_queue.Queue.{Queue}
use adele_queue.Redis.{RedisApi, Node}
use adele_queue.Reaper.Run.{ReaperStats, add_tally, run_reaper_tick}
use adele_queue.Reaper.Tick.{CountsDown}
use adele_queue.Reaper.Tick.Ends.{run_reaper_tick_lem}

-- The readings of `systemShutdown` in one round: before the ticker's wait, after it, and before
-- each page of the tick.
pub record Readings : Type 0 where
  pub before_wait : Bool
  pub after_wait : Bool
  pub in_tick : ℕ → Bool

module _ {S W D : Type 0} (api : RedisApi S) (database : Database D) (q : Queue W) where
  -- The loop, for at most as many rounds as the first argument says, each with `fuel` for its tick;
  -- `none` where either is used up.
  unfoldable pub reap_stale_locks :
      ℕ
      → ℕ
      → (ℕ → Readings)
      → (ℕ → ℕ → ℕ → ℕ → Instant)
      → Node S W D
      → ReaperStats
      → Option (Node S W D × ReaperStats)
  reap_stale_locks zero fuel readings clocks n r = none
  reap_stale_locks (suc rounds) fuel readings clocks n r =
      elim ((readings 0).before_wait || (readings 0).after_wait) [
        | true ↦ some (n, r)
        | false ↦ elim (run_reaper_tick api database q fuel (readings 0).in_tick (clocks 0) n r) [
          | none ↦ none
          | some (n', r') ↦
              reap_stale_locks rounds fuel (λ i. readings (suc i)) (λ i. clocks (suc i)) n' r'
        ]
      ]

module _ {S W D : Type 0} (api : RedisApi S) (database : Database D) (q : Queue W) (rank : ℕ → ℕ)
    (down : CountsDown api rank) (fuel : ℕ) (enough : rank 0 < fuel) where
  -- On a server whose cursors of SCAN fall by some rank, the reaper's goroutine returns in the
  -- first round that reads `systemShutdown` as set, however the ticks before go. It has made
  -- exactly one tick in each round before that one.
  pub reap_stale_locks_shutdown :
      (k : ℕ) (readings : ℕ → Readings) (clocks : ℕ → ℕ → ℕ → ℕ → Instant) (n : Node S W D)
      (r : ReaperStats)
      → ((i : ℕ) → i < k → ((readings i).before_wait || (readings i).after_wait) ≡ false)
      → ((readings k).before_wait || (readings k).after_wait) ≡ true
      → r.ticks < 18446744073709551616
      → (n' : Node S W D) × (r' : ReaperStats) × (reap_stale_locks api database q
            (suc k)
            fuel
            readings
            clocks
            n
            r
          ≡ some (n', r'))
        × (r'.ticks ≡ (r.ticks + k) % 18446744073709551616)
  unfolding reap_stale_locks add_tally
  reap_stale_locks_shutdown zero readings clocks n r off on fits =
      rw (on, reap_stale_locks) (n, r, refl, omega arith)
  reap_stale_locks_shutdown (suc k) readings clocks n r off on fits =
      let (n', t, paged, e, b) =
        run_reaper_tick_lem api database q rank down fuel (readings 0).in_tick (clocks 0) n r
          enough in
      let (n'', r'', e', ticks) =
        reap_stale_locks_shutdown k (λ i. readings (suc i)) (λ i. clocks (suc i)) n' (add_tally t r)
          (λ i h. off (suc i) (omega arith)) on (omega arith) in
      (n'', r'', rw (off 0 (omega arith), e, reap_stale_locks) e', omega (arith, ticks))
