-- ===== src/Memory/Attempts.antt =====
-- How often a job runs whose handler never succeeds (api/memory.go, `addFailedJob`, driven by the
-- worker's loop of api/queue.go).
pub mod Runs
pub mod Bound
pub mod Until
use mathlib.Core.Option
use adele_queue.Base.{ℕ, zero, suc, ◌≡◌, ◌≢◌, true, ◌⊎◌, [], ◌∷◌, Option, none, some}
use adele_queue.Base.Int.{pos}
use adele_queue.Base.Text.{Text}
use adele_queue.Time.{Instant}
use adele_queue.Handler.{succeeded, Handler}
use adele_queue.Job.{Job}
use adele_queue.Database.{Database}
use adele_queue.Registry.{lookup}
use adele_queue.Memory.{Mem}
use adele_queue.Memory.Worker.{process}

-- A queue with one job: it is run, and again each time that its retry wakes, until nothing sleeps.
-- The number of runs and the final state, or `none` where the fuel is used up.
pub life : {W D : Type 0} → Database D → ℕ → Instant → Job W → Mem W D → Option (ℕ × Mem W D)
life database zero now job m = none
life database (suc fuel) now job m =
    let done = process database now job m in
    elim done.sleepers [
      | [] ↦ some (1, done)
      | (t, again) ∷ rest ↦
          Option.map (λ r. (suc r.0, r.1))
            (life database fuel t again (record done { sleepers = rest }))
    ]

-- The handler returns an error or panics whatever the payload and the world are.
abbrev pub NeverSucceeds : {W : Type 0} → Handler W → Type 0
NeverSucceeds {W} h = (p : Option Text) (w : W) → (h p w).0 ≢ succeeded

-- A job with `Retry` and the handler `h` of its own, for whose name no handler or the same one is
-- registered, alone in the queue, before its run number `c + 1`.
pub record IsRetried {W D : Type 0} (h : Handler W) (n c : ℕ) (job : Job W) (m : Mem W D)
    : Type 0 where
  pub inline : job.handler ≡ some h
  pub entry :
      (lookup job.name m.queue.handlers ≡ none)
      ⊎ (lookup job.name m.queue.handlers ≡ some (record { plain = some h; ctx = none }))
  pub retries : job.retry ≡ true
  pub counter : job.retry_counter ≡ pos c
  pub limit : m.queue.max_attempts ≡ pos n
  pub alone : m.sleepers ≡ []
