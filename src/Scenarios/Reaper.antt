-- ===== src/Scenarios/Reaper.antt =====
-- The theorems on the reaper at a sample queue and server.
use adele_queue.Base.{
  zero, suc, ◌%◌, ◌<◌, ◌||◌, ℕ, ◌+◌, ◌≡◌, refl, arith, true, false, [], ◌∷◌, none, some,
  if◌then◌else◌,
}
use adele_queue.Base.Int.{pos}
use adele_queue.Base.Text.{Text, text_eq, codes}
use adele_queue.Time.{Instant, format}
use adele_queue.Job.{zero_hash, add_flat, row_of}
use adele_queue.Key.{pending, locked, key}
use adele_queue.Key
use adele_queue.Redis.{Node, set_redis_key}
use adele_queue.Redis.View.{Keyspace, moved, stored, view}
use adele_queue.Redis.Handle.{errored, call_handler, retried_job, handle_redis_job, retriable}
use adele_queue.Reaper.Repair.{reap_expired_of_retry}
use adele_queue.Reaper.{
  requeued, permafailed, expired_job, requeued_job, permafailed_job, requeue_expired_lock,
}
use adele_queue.Reaper.Run.{
  reap_pages, Tally, no_tally, reap_guarded, reap_expired, ReaperStats, add_tally, run_reaper_tick,
}
use adele_queue.Reaper.Expiry.{left, requeue_expired_lock_lem}
use adele_queue.Reaper.Race.{reap_guarded-take_lost}
use adele_queue.Reaper.Loop.{Readings, reap_stale_locks, reap_stale_locks_shutdown}
use adele_queue.Redis.Scan.{returned, take}
use adele_queue.Reaper.Tick.{IsBalanced}
use adele_queue.Reaper.Tick.Ends.{run_reaper_tick_lem}
use adele_queue.Queue.{Queue}
use adele_queue.Scenarios.World.{Tables, fails, channel, queue, job, database}
use adele_queue.Scenarios.Server.{server, server-IsReliable, rank, server-CountsDown}

abbrev id : Text
id = codes "7"

-- A clock that starts at 100.
abbrev clock : ℕ → Instant
clock i = i + 100

-- The job locked, with a copy of it pending.
abbrev leaked : Node Keyspace ℕ Tables
leaked = record {
  server = λ k.
      if text_eq (key locked channel id) k
      then some zero_hash
      else if text_eq (key pending channel id) k
      then some zero_hash
      else none;
  world = 0;
  db = ([], []);
}

requeue_expired_lock_lem_example :
    ((k : Text)
      → view server
          (requeue_expired_lock server database queue channel id clock job
            (pos 300)
            leaked).0.server
          k
        ≡ (if left queue (pos 300) job
            then moved
                (key locked channel id)
                (key pending channel id)
                (add_flat (requeued_job clock (expired_job (pos 300) job)))
                leaked.server
                k
            else moved
                (key locked channel id)
                (key Key.failed channel id)
                (add_flat (permafailed_job clock (expired_job (pos 300) job)))
                leaked.server
                k))
    × ((requeue_expired_lock server database queue channel id clock job (pos 300) leaked).1
        ≡ some (if left queue (pos 300) job then requeued else permafailed))
    × ((requeue_expired_lock server database queue channel id clock job (pos 300) leaked).0.db ≡ (
        if left queue (pos 300) job
        then ([], [])
        else ([], row_of (permafailed_job clock (expired_job (pos 300) job)) ∷ [])))
    × ((requeue_expired_lock server database queue channel id clock job (pos 300) leaked).0.world
        ≡ 0)
requeue_expired_lock_lem_example =
    requeue_expired_lock_lem server server-IsReliable database queue channel id clock job (pos 300)
      leaked

pending_copy : view server leaked.server (key pending channel id) ≡ some zero_hash
unfolding key text_eq
pending_copy = refl

-- A job and its leaked lock, as the reaper read it.
reap_guarded-take_lost_example :
    let reply = server.exists (key pending channel id) leaked.server in
    let renamed = record leaked {
      server = (set_redis_key server channel id pending locked leaked.server).0;
    } in
    let (reaped, t) =
      reap_guarded server database queue channel id clock job reply renamed no_tally in
    let (n, flow) = take server database queue channel id clock reaped in
    ((k : Text)
      → view server n.server k ≡ (
          if text_eq (key locked channel id) k
          then some (record zero_hash { locked_at = format 100 })
          else if text_eq (key pending channel id) k
          then none
          else view server leaked.server k))
    × (n.world ≡ 0)
    × (n.db ≡ ([], []))
    × (flow ≡ returned)
    × (t ≡ record no_tally { dupes = 1 })
reap_guarded-take_lost_example =
    reap_guarded-take_lost server server-IsReliable database queue channel id job zero_hash clock
      clock leaked no_tally pending_copy

abbrev no_stats : ReaperStats
no_stats = record {
  ticks = 0;
  scanned_keys = 0;
  requeued_total = 0;
  permafailed_total = 0;
  skipped_recent = 0;
  skipped_dupe_pending = 0;
  errors = 0;
}

run_reaper_tick_lem_example :
    (n : Node Keyspace ℕ Tables) × (t : Tally) × (reap_pages server database queue 2
        (λ i. false)
        (λ i j k. 100)
        0
        leaked
        no_tally
      ≡ some (n, t))
    × (run_reaper_tick server database queue 2 (λ i. false) (λ i j k. 100) leaked no_stats
        ≡ some (n, add_tally t no_stats))
    × IsBalanced 1 t
run_reaper_tick_lem_example =
    run_reaper_tick_lem server database queue rank server-CountsDown 2 (λ i. false) (λ i j k. 100)
      leaked no_stats (omega arith)

-- The sample queue with a handler that fails, for the job under its lock.
abbrev failing : Queue ℕ
failing = record queue { handlers = ("mail", record { plain = some fails; ctx = none }) ∷ [] }

abbrev under_lock : Node Keyspace ℕ Tables
under_lock = record {
  server = λ k. if text_eq (key locked channel id) k then some zero_hash else none;
  world = 0;
  db = ([], []);
}

handler_fails : (call_handler failing job 0).0 ≡ errored (codes "no route")
unfolding call_handler
handler_fails = refl

may_retry : retriable failing job ≡ true
unfolding retriable
may_retry = refl

abbrev repaired : Node Keyspace ℕ Tables × Tally
repaired =
    reap_expired server database failing channel id clock job
      (handle_redis_job server database failing channel job id clock under_lock) no_tally

reap_expired_of_retry_example :
    ((k : Text)
      → view server repaired.0.server k ≡ (
          if text_eq (key locked channel id) k
          then none
          else stored
              (key pending channel id)
              (add_flat (retried_job clock job))
              under_lock.server
              k))
    × (repaired.1 ≡ record no_tally { dupes = 1 })
reap_expired_of_retry_example =
    reap_expired_of_retry server server-IsReliable database failing channel id clock job under_lock
      (codes "no route") job clock no_tally refl handler_fails may_retry

-- Two rounds of the reaper, of which the second reads that the queue is closed.
abbrev readings : ℕ → Readings
readings zero = record { before_wait = false; after_wait = false; in_tick = λ i. false }
readings (suc i) = record { before_wait = false; after_wait = true; in_tick = λ i. false }

reap_stale_locks_shutdown_example :
    (n : Node Keyspace ℕ Tables) × (r : ReaperStats) × (reap_stale_locks server database queue 2 2
        readings
        (λ i j k l. 100)
        leaked
        no_stats
      ≡ some (n, r))
    × (r.ticks ≡ (0 + 1) % 18446744073709551616)
reap_stale_locks_shutdown_example =
    reap_stale_locks_shutdown server database queue rank server-CountsDown 2 (omega arith) 1
      readings (λ i j k l. 100) leaked no_stats off refl (omega arith)
  where
    off : (i : ℕ) → i < 1 → ((readings i).before_wait || (readings i).after_wait) ≡ false
    off zero lt = refl
    off (suc i) lt = absurd (omega arith)
