-- ===== src/Memory/Attempts/Until.antt =====
-- The runs of a job whose handler fails a number of times and then succeeds (api/memory.go,
-- `addFailedJob`, driven by the worker's loop of api/queue.go).
use adele_queue.Base.{ℕ, zero, suc, ◌+◌, ◌≤◌, ◌<◌, ◌≡◌, ◌≢◌, refl, arith, [], some}
use adele_queue.Time.{Instant}
use adele_queue.Handler.{Bytes, succeeded, Handler}
use adele_queue.Job.{Job}
use adele_queue.Database.{Database}
use adele_queue.Memory.{Mem}
use adele_queue.Memory.Worker.{process}
use adele_queue.Memory.Attempts.{life, IsRetried}
use adele_queue.Memory.Attempts.Runs.{process-IsAgain, process_completed}
use adele_queue.Memory.Attempts.Bound.{life_step}

-- The world after so many calls of a handler with one payload.
unfoldable pub world_after : {W : Type 0} → Handler W → Bytes → ℕ → W → W
world_after h p zero w = w
world_after h p (suc k) w = world_after h p k (h p w).1

-- It fails at each of the first `k` calls and succeeds at the next.
pub record SucceedsAfter {W : Type 0} (h : Handler W) (p : Bytes) (k : ℕ) (w : W) : Type 0 where
  pub fails : (i : ℕ) → i < k → (h p (world_after h p i w)).0 ≢ succeeded
  pub succeeds : (h p (world_after h p k w)).0 ≡ succeeded

module _ {W : Type 0} {h : Handler W} {p : Bytes} {k : ℕ} {w : W} where
  later : SucceedsAfter h p (suc k) w → SucceedsAfter h p k (h p w).1
  unfolding world_after
  later s = record { fails = λ i lt. s.fails (suc i) (omega arith); succeeds = s.succeeds }

module _ {W D : Type 0} (database : Database D) (h : Handler W) (p : Bytes) (n : ℕ) where
  life_until :
      (k c : ℕ) (now : Instant) (job : Job W) (m : Mem W D) (w : W)
      → job.payload ≡ p
      → m.world ≡ w
      → SucceedsAfter h p k w
      → c + k ≤ n
      → n < 9223372036854775808
      → IsRetried h n c job m
      → (last : Mem W D) × (life database (suc k) now job m ≡ some (suc k, last))
        × (last.world ≡ world_after h p (suc k) w)
  unfolding life world_after
  life_until zero c now job m w hp hw s le small d =
      let done = process_completed database h n c now job m (rw (hp, hw) s.succeeds) d in
      (process database now job m, ground (arith, done.0), rw (done.1, hp, hw) refl)
  life_until (suc k) c now job m w hp hw s le small d =
      let a =
        process-IsAgain database h n c now job m (rw (hp, hw) (s.fails 0 (omega arith)))
          (omega arith) (omega arith) d in
      let rest =
        life_until k (suc c) a.at a.again (record (process database now job m) { sleepers = [] })
          (h p w).1 (cc (a.payload, hp)) (rw (a.world, hp, hw) refl) (later s) (omega arith) small
          a.retried in
      (
        rest.0,
        life_step database job m (suc k) (suc k) now a.at a.again rest.0 a.asleep rest.1,
        rest.2,
      )

-- A job with `Retry`, its counter at 0 and a handler of its own that, from the present world on,
-- fails at the first `k` calls with its payload and succeeds at the next, alone in a queue that has
-- no other handler registered for its name, runs `k + 1` times where `k` is at most `MaxAttempts`.
-- That many rounds of fuel are enough, and the handler was called that often: the world is the one
-- that so many calls leave.
pub life_of_succeeding_after :
    {W D : Type 0} (database : Database D) (h : Handler W) (n k : ℕ) (now : Instant) (job : Job W)
    (m : Mem W D)
    → SucceedsAfter h job.payload k m.world
    → k ≤ n
    → n < 9223372036854775808
    → IsRetried h n 0 job m
    → (last : Mem W D) × (life database (suc k) now job m ≡ some (suc k, last))
      × (last.world ≡ world_after h job.payload (suc k) m.world)
life_of_succeeding_after database h n k now job m s le small d =
    life_until database h job.payload n k 0 now job m m.world refl refl s (omega arith) small d
