-- ===== src/Memory/Attempts/Bound.antt =====
-- All runs of a job whose handler never succeeds (api/memory.go, `addFailedJob`).
use adele_queue.Base.{ℕ, zero, suc, ◌+◌, ◌<◌, ◌≡◌, arith, [], ◌∷◌, some}
use adele_queue.Time.{Instant}
use adele_queue.Handler.{Handler}
use adele_queue.Job.{Job}
use adele_queue.Database.{Database}
use adele_queue.Memory.{Mem}
use adele_queue.Memory.Worker.{process}
use adele_queue.Memory.Attempts.{life, NeverSucceeds, IsRetried}
use adele_queue.Memory.Attempts.Runs.{process-IsAgain, process_finally}

module _ {W D : Type 0} (database : Database D) (job : Job W) (m : Mem W D) where
  pub life_step :
      (k r : ℕ) (now t : Instant) (again : Job W) (last : Mem W D)
      → (process database now job m).sleepers ≡ (t, again) ∷ []
      → life database k t again (record (process database now job m) { sleepers = [] })
        ≡ some (r, last)
      → life database (suc k) now job m ≡ some (suc r, last)
  unfolding life
  life_step k r now t again last asleep rest = ground arith

module _ {W D : Type 0} (database : Database D) (h : Handler W) (n : ℕ) where
  life_failing :
      (k c : ℕ) (now : Instant) (job : Job W) (m : Mem W D)
      → NeverSucceeds h
      → n ≡ c + k
      → n < 9223372036854775808
      → IsRetried h n c job m
      → (last : Mem W D) × (life database (suc k) now job m ≡ some (suc k, last))
  unfolding life
  life_failing zero c now job m fails e small d = (
    process database now job m,
    ground (
      arith,
      process_finally database h n c now job m (fails job.payload m.world) (omega arith) d,
    ),
  )
  life_failing (suc k) c now job m fails e small d =
      let a =
        process-IsAgain database h n c now job m (fails job.payload m.world) (omega arith)
          (omega arith) d in
      let rest =
        life_failing k (suc c) a.at a.again (record (process database now job m) { sleepers = [] })
          fails (omega arith) small a.retried in
      (rest.0, life_step database job m (suc k) (suc k) now a.at a.again rest.0 a.asleep rest.1)

-- A job with `Retry`, its counter at 0 and a handler of its own that never succeeds, alone in a
-- queue that has no other handler registered for its name, runs `MaxAttempts + 1` times, where
-- `MaxAttempts` is not negative, that many rounds of fuel being enough: the first run, and one more
-- for each counter below `MaxAttempts`.
pub life_of_never_succeeding :
    {W D : Type 0} (database : Database D) (h : Handler W) (n : ℕ) (now : Instant) (job : Job W)
    (m : Mem W D)
    → NeverSucceeds h
    → n < 9223372036854775808
    → IsRetried h n 0 job m
    → (last : Mem W D) × (life database (suc n) now job m ≡ some (suc n, last))
life_of_never_succeeding database h n now job m fails small d =
    life_failing database h n n 0 now job m fails (omega arith) small d
