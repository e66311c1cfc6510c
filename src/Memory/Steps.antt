-- ===== src/Memory/Steps.antt =====
-- The interleavings of the memory backend: callers of `Dispatch`, sleeping goroutines, workers and
-- `Close`, in any order (api/queue.go and api/memory.go).
pub mod Depth
pub mod Close
use adele_queue.Base.{◌++◌, ◌∷◌, List, ◌≡◌, false}
use adele_queue.Base.Text.{Text}
use adele_queue.Time.{Instant}
use adele_queue.Job.{Job}
use adele_queue.Database.{Database}
use adele_queue.Memory.{Mem}
use adele_queue.Memory.Worker.{process}
use adele_queue.Memory.Dispatch.{send, dispatch_memory, close_memory}

-- One step of a process that has not crashed. A sleeper wakes once its time has come, a worker
-- receives any job that is being sent, and a worker ends with any job that it holds. Each `Listen`
-- starts `WorkerCount` more workers, so nothing bounds how many jobs they hold.
pub data Step {W D : Type 0} (database : Database D) : Mem W D → Mem W D → Type 0 where
  dispatched :
      (m : Mem W D) (id : Text) (now later : Instant) (job : Job W)
      → m.crashed ≡ false
      → Step database m (dispatch_memory id now later job m).0
  woken :
      (m : Mem W D) (before after : List (Instant × Job W)) (at : Instant) (job : Job W)
      → m.crashed ≡ false
      → m.sleepers ≡ before ++ (at, job) ∷ after
      → Step database m (send job (record m { sleepers = before ++ after }))
  received :
      (m : Mem W D) (before after : List (Job W)) (job : Job W)
      → m.crashed ≡ false
      → m.senders ≡ before ++ job ∷ after
      → Step database m (record m { senders = before ++ after; running = job ∷ m.running })
  finished :
      (m : Mem W D) (before after : List (Job W)) (now : Instant) (job : Job W)
      → m.crashed ≡ false
      → m.running ≡ before ++ job ∷ after
      → Step database m (process database now job (record m { running = before ++ after }))
  closed : (m : Mem W D) → m.crashed ≡ false → Step database m (close_memory m)

pub data Reach {W D : Type 0} (database : Database D) (m : Mem W D) : Mem W D → Type 0 where
  here : Reach database m m
  next : {t u : Mem W D} → Reach database m t → Step database t u → Reach database m u
