-- ===== src/Memory/Dispatch.antt =====
-- api/queue.go: the memory cases of `Dispatch`, `Depth` and `Close`.
use Prim.Native.Nat.{min}
use adele_queue.Base.{◌+◌, ◌-◌, true, [], ◌∷◌, ◌++◌, Option, none, some, ltb, if◌then◌else◌}
use adele_queue.Base.Int.{ℤ, pos, add64}
use adele_queue.Base.Text.{Text, text_eq}
use adele_queue.Time.{Instant, Stamp, unset, at, malformed}
use adele_queue.Job.{Job}
use adele_queue.Queue.{Queue}
use adele_queue.Stamping.{DispatchError, invalid_dispatch_at, stamp_job}
use adele_queue.Memory.{Mem}

-- `if job.Queue == "" { job.Queue = q.QueueChannelDefault }`
unfoldable pub default_queue : {W : Type 0} → Queue W → Job W → Job W
unfolding text_eq
default_queue q job =
    if text_eq job.queue [] then record job { queue = q.queue_channel_default } else job

abbrev max_duration : Instant
max_duration = 9223372036854775807

module _ {W D : Type 0} where
  -- `q.pendingCount.Add(1)`, then `q.Jobs <- job`: the goroutine waits for a worker, or panics
  -- where the channel is closed.
  unfoldable pub send : Job W → Mem W D → Mem W D
  send job m =
      let counted = record m.queue { pending_count = add64 m.queue.pending_count (pos 1) } in
      if m.closed
      then record m { queue = counted; crashed = true }
      else record m { queue = counted; senders = m.senders ++ job ∷ [] }

  -- A job with a schedule, where the text parses. `time.Until` saturates.
  schedule : Instant → Instant → Job W → Mem W D → Mem W D
  schedule now when job m =
      if ltb now when
      then record m { sleepers = m.sleepers ++ (now + min (when - now) max_duration, job) ∷ [] }
      else send job m

  -- `job.DispatchAt != ""` and `time.Parse`, on the three kinds of text.
  unfoldable pub enqueue :
      Instant → Stamp → Job W → Mem W D → Mem W D × (Text × Option DispatchError)
  unfolding schedule
  enqueue later unset job m = (send job m, (job.id, none))
  enqueue later (at when) job m = (schedule later when job m, (job.id, none))
  enqueue later (malformed s) job m = (m, ([], some (invalid_dispatch_at (malformed s))))

  -- The state, and the id or the error. `now` and `later` are the two readings of the clock.
  unfoldable pub dispatch_memory :
      Text → Instant → Instant → Job W → Mem W D → Mem W D × (Text × Option DispatchError)
  dispatch_memory id now later job m =
      let j = default_queue m.queue (stamp_job id now job) in enqueue later j.dispatch_at j m

  -- `Depth`
  unfoldable pub depth_memory : Mem W D → ℤ
  depth_memory m = m.queue.pending_count

  -- `Close` up to its wait for the workers: closing the channel panics in every goroutine that is
  -- sending on it, and in `Close` itself if it is closed already.
  unfoldable pub close_memory : Mem W D → Mem W D
  close_memory m = record m {
    queue = record m.queue { cancelled = true };
    closed = true;
    crashed = if m.closed then true else elim m.senders [ [] ↦ m.crashed | _ ∷ _ ↦ true ];
  }
