-- ===== src/Memory/Steps/Close.antt =====
-- `Close` of the memory backend does not wait for goroutines that sleep before a send.
use adele_queue.Base.{
  ◌≡◌, refl, ◌∙◌, arith, true, false, List, [], ◌∷◌, ◌++◌, ltb, Bool-cases, inl, inr,
}
use adele_queue.Time.{Instant, Stamp, unset, at, malformed}
use adele_queue.Job.{Job}
use adele_queue.Database.{Database}
use adele_queue.Memory.{Mem}
use adele_queue.Memory.Worker.{runnable, release, process}
use adele_queue.Memory.Dispatch.{send, enqueue, dispatch_memory, close_memory}
use adele_queue.Memory.Steps.{
  Step, dispatched, woken, received, finished, closed, Reach, here, next,
}
use adele_queue.Memory.Steps.Depth.{ran-IsFramed}

module _ {W D : Type 0} (database : Database D) where
  send_closed : (job : Job W) (m : Mem W D) → m.closed ≡ true → (send job m).closed ≡ true
  unfolding send
  send_closed job m shut = rw shut refl

  enqueue_closed :
      (later : Instant) (at_text : Stamp) (job : Job W) (m : Mem W D)
      → m.closed ≡ true
      → (enqueue later at_text job m).0.closed ≡ true
  unfolding enqueue
  enqueue_closed later unset job m shut = send_closed job m shut
  enqueue_closed later (malformed s) job m shut = shut
  enqueue_closed later (at when) job m shut = elim (Bool-cases (ltb later when)) [
    | inl future ↦ rw future shut
    | inr due ↦ rw due (send_closed job m shut)
  ]

  -- No step opens the channel again.
  Step-closed : {m t : Mem W D} → Step database m t → m.closed ≡ true → t.closed ≡ true
  unfolding dispatch_memory process release close_memory
  Step-closed (dispatched m id now later job up) shut = enqueue_closed later _ _ m shut
  Step-closed (woken m before after t job up e) shut =
      send_closed job (record m { sleepers = before ++ after }) shut
  Step-closed (received m before after job up e) shut = shut
  Step-closed (finished m before after now job up e) shut =
      let m' = record m { running = before ++ after } in
      (ran-IsFramed database (runnable m'.queue job) now job m').closed ∙ shut
  Step-closed (closed m up) shut = ground (arith, shut)

  Reach-closed : {m t : Mem W D} → Reach database m t → m.closed ≡ true → t.closed ≡ true
  Reach-closed here shut = shut
  Reach-closed (next r s) shut = Step-closed s (Reach-closed r shut)

  -- A sleeper that wakes after the close sends on a closed channel.
  woken_crashes : (job : Job W) (m : Mem W D) → m.closed ≡ true → (send job m).crashed ≡ true
  unfolding send
  woken_crashes job m shut = rw shut refl

-- Closing a queue that is open, with no send under way, leaves the process running, with every
-- scheduled or retried job still asleep. Whatever happens from then on, as long as the process runs
-- each job that sleeps can be the next to wake, and when it does it ends the process by a send on
-- the closed channel.
pub close_memory-woken :
    {W D : Type 0} (database : Database D) (m : Mem W D)
    → m.crashed ≡ false
    → m.closed ≡ false
    → m.senders ≡ []
    → ((close_memory m).crashed ≡ false)
      × ((close_memory m).sleepers ≡ m.sleepers)
      × ((t : Mem W D)
          → Reach database (close_memory m) t
          → t.crashed ≡ false
          → (before after : List (Instant × Job W)) (time : Instant) (job : Job W)
          → t.sleepers ≡ before ++ (time, job) ∷ after
          → Step database t (send job (record t { sleepers = before ++ after }))
            × ((send job (record t { sleepers = before ++ after })).crashed ≡ true))
unfolding close_memory
close_memory-woken database m up open_queue idle = (
  ground arith,
  ground arith,
  λ t r alive before after time job asleep. (
    woken t before after time job alive asleep,
    woken_crashes database job (record t { sleepers = before ++ after })
        (Reach-closed database r (ground arith)),
  ),
)
