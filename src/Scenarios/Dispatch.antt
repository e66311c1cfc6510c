-- ===== src/Scenarios/Dispatch.antt =====
-- The theorems on `Dispatch` and `Depth` at a sample queue and server.
use adele_queue.Base.{ℕ, ◌+◌, ◌≡◌, refl, arith, true, [], ◌∷◌, none, some}
use adele_queue.Base.Int.{pos, wrap64}
use adele_queue.Base.Text.{Text, text_eq, codes}
use adele_queue.Time.{Instant, malformed}
use adele_queue.Job.{Job, Hash, add_flat, scan_struct}
use adele_queue.Queue.{contains}
use adele_queue.Key.{KeyState, pending, locked, key, read_key}
use adele_queue.Redis.View.{Keyspace, moved, stored, view}
use adele_queue.Stamping.{stamp_job, invalid_dispatch_at}
use adele_queue.Memory.{Mem}
use adele_queue.Memory.Dispatch.{dispatch_memory}
use adele_queue.Reaper.Run.{no_tally, reap_key}
use adele_queue.Conserved.{IsHeld}
use adele_queue.Conserved.Labels.{Labels, Bears, IsLabelled}
use adele_queue.Conserved.Operations.{
  scans, reaps, Operations, no_operation, and_then, Operations-IsHeld,
}
use adele_queue.Dispatch.Served.{scan_key-dispatch_redis}
use adele_queue.Redis.{Node}
use adele_queue.Redis.Handle.{call_handler}
use adele_queue.Redis.Handle.Transitions.{transition}
use adele_queue.Redis.Scan.{proceed, returned, scan_key}
use adele_queue.Redis.Scan.Claim.{locked_hash}
use adele_queue.Dispatch.{redis_job, dispatch_redis, counted, depth}
use adele_queue.Dispatch.Keyed.{dispatch_redis_lem}
use adele_queue.Dispatch.Served.Stuck.{scan_key-dispatch_malformed}
use adele_queue.Dispatch.Depth.{last, more, AllPages, no_channel, channel_pages, depth-AllPages}
use adele_queue.Scenarios.World.{Tables, channel, queue, job, memory, database}
use adele_queue.Scenarios.Server.{server, server-IsReliable, lower, lower-IsLowerTable}

abbrev pub empty : Keyspace
empty k = none

listed : contains queue.queue_channels queue.queue_channel_default ≡ true
unfolding contains text_eq
listed = refl

abbrev stored_job : Job ℕ
stored_job = redis_job server lower queue (codes "7") 5 job

dispatch_redis_lem_example :
    ((k : Text)
      → view server (dispatch_redis server lower queue (codes "7") 5 job empty).0 k
        ≡ stored (key pending stored_job.queue (codes "7")) (add_flat stored_job) empty k)
    × ((dispatch_redis server lower queue (codes "7") 5 job empty).1 ≡ (codes "7", none))
    × (contains queue.queue_channels stored_job.queue ≡ true)
    × (read_key (key pending stored_job.queue (codes "7")) ≡ some (stored_job.queue, codes "7"))
dispatch_redis_lem_example =
    dispatch_redis_lem server server-IsReliable lower lower-IsLowerTable queue (codes "7") 5 job
      empty listed (ground arith) (ground arith)

abbrev tomorrow : Text
tomorrow = codes "tomorrow"

abbrev badly_timed : Job ℕ
badly_timed = record job { dispatch_at = malformed tomorrow }

abbrev stuck_job : Job ℕ
stuck_job = redis_job server lower queue (codes "7") 5 badly_timed

abbrev nowhere : Node Keyspace ℕ Tables
nowhere = record { server = empty; world = 0; db = ([], []) }

abbrev stuck_at : ℕ → Instant
stuck_at i = i + 100

scan_key-dispatch_malformed_example :
    let stored = (dispatch_redis server lower queue (codes "7") 5 badly_timed empty).0 in
    let (n', flow) =
      scan_key server database queue
        (key pending stuck_job.queue (codes "7"))
        stuck_at
        (record nowhere { server = stored }) in
    (dispatch_memory (codes "7") 5 6 badly_timed memory
      ≡ (memory, ([], some (invalid_dispatch_at (malformed tomorrow)))))
    × ((dispatch_redis server lower queue (codes "7") 5 badly_timed empty).1 ≡ (codes "7", none))
    × ((k : Text)
        → view server n'.server k
          ≡ moved
              (key pending stuck_job.queue (codes "7"))
              (key locked stuck_job.queue (codes "7"))
              (locked_hash stuck_at (add_flat stuck_job))
              empty
              k)
    × (n'.world ≡ 0)
    × (flow ≡ returned)
scan_key-dispatch_malformed_example =
    scan_key-dispatch_malformed server server-IsReliable database lower lower-IsLowerTable memory
      (codes "7") 5 badly_timed nowhere 6 tomorrow stuck_at refl listed (ground arith)
      (ground arith)

-- The sample process on the redis backend.
abbrev connected : Mem ℕ Tables
connected = record memory {
  queue = record queue {
    backend = "redis";
    redis = record { pool = true; prefix = ""; scan_interval = pos 1 };
  };
}

two_pages : AllPages server empty 2 (channel ∷ []) 2
two_pages =
    channel_pages channel [] 2 0
      (key pending channel (codes "7") ∷ key pending channel (codes "8") ∷ [])
      (more 0 0 1 (key pending channel (codes "7") ∷ []) (key pending channel (codes "8") ∷ []) refl
        (last 1 (key pending channel (codes "8") ∷ []) refl))
      (omega arith) no_channel

depth-AllPages_example : depth server empty 2 true connected ≡ counted (wrap64 (pos 2))
depth-AllPages_example = depth-AllPages server empty 2 connected 2 refl refl two_pages

-- A job without a schedule, and a node with the sample server on which nothing is stored.
abbrev node : Node Keyspace ℕ Tables
node = record { server = empty; world = 0; db = ([], []) }

abbrev clock : ℕ → Instant
clock i = i + 2000000000

scan_key-dispatch_redis_example :
    let sent = record node {
      server = (dispatch_redis server lower queue (codes "7") 5 job empty).0;
    } in
    let (n, flow) =
      scan_key server database queue (key pending stored_job.queue (codes "7")) clock sent in
    let run = scan_struct {W = ℕ} (locked_hash clock (add_flat stored_job)) in
    ((k : Text)
      → view server n.server k
        ≡ transition queue stored_job.queue
            (codes "7")
            (λ i. clock (i + 2))
            (call_handler queue run 0).0
            run
            (moved
              (key pending stored_job.queue (codes "7"))
              (key locked stored_job.queue (codes "7"))
              (locked_hash clock (add_flat stored_job))
              (view server empty))
            k)
    × (flow ≡ proceed)
scan_key-dispatch_redis_example =
    scan_key-dispatch_redis server server-IsReliable database lower lower-IsLowerTable queue
      (codes "7") 5 job node clock listed (ground arith) (ground arith) refl (omega arith)

-- After the dispatch a worker scans the job's key, and a reaper reaps its locked one.
abbrev after_dispatch : Node Keyspace ℕ Tables
after_dispatch = record node {
  server = (dispatch_redis server lower queue (codes "7") 5 job empty).0;
}

abbrev after_scan : Node Keyspace ℕ Tables
after_scan =
    (scan_key server database queue (key pending stored_job.queue (codes "7")) clock
      after_dispatch).0

abbrev after_reap : Node Keyspace ℕ Tables
after_reap =
    (reap_key server database queue clock (key locked stored_job.queue (codes "7")) after_scan
      no_tally).0

-- The label of every job.
abbrev label : Labels
label c i = ("mail", codes "hi")

empty-IsLabelled : IsLabelled server label empty
empty-IsLabelled = record { bears = λ st c i hc hi g e. absurd (ground (arith, e)) }

stored_job-Bears : Bears label stored_job.queue (codes "7") (add_flat stored_job)
unfolding add_flat redis_job stamp_job
stored_job-Bears = record { id_kept = refl; name_kept = refl; payload_kept = refl }

operations : Operations server lower database label after_dispatch after_reap
operations =
    and_then
      (and_then no_operation
        (scans queue (key pending stored_job.queue (codes "7")) clock after_dispatch))
      (reaps queue (key locked stored_job.queue (codes "7")) clock no_tally after_scan)

Operations-IsHeld_example :
    IsHeld server stored_job.queue (codes "7") after_reap.server
    × ((st : KeyState) (g : Hash)
        → view server after_reap.server (key st stored_job.queue (codes "7")) ≡ some g
        → (g.id ≡ codes "7")
          × (g.name ≡ (add_flat stored_job).name)
          × (g.payload ≡ (add_flat stored_job).payload))
Operations-IsHeld_example =
    Operations-IsHeld server server-IsReliable lower database label lower-IsLowerTable queue
      (codes "7") 5 job {first = node} {n = node} listed (ground arith) (ground arith)
      empty-IsLabelled stored_job-Bears no_operation operations
