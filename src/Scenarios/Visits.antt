-- ===== src/Scenarios/Visits.antt =====
-- The theorems on the visits of redis workers at a sample queue and server.
use adele_queue.Base.{
  ℕ, zero, suc, ◌+◌, ◌*◌, ◌≤◌, ◌<◌, ◌≡◌, ◌≢◌, refl, arith, true, false, [], ◌∷◌, none, some,
  if◌then◌else◌,
}
use adele_queue.Base.Int.{pos}
use adele_queue.Base.Text.{Text, text_eq, codes}
use adele_queue.Time.{Instant, at}
use adele_queue.Handler.{Handler, failed, succeeded}
use adele_queue.Job.{Hash, Job, zero_hash}
use adele_queue.Queue.{Queue, contains}
use adele_queue.Registry.{lookup}
use adele_queue.Key.{pending, locked, complete, key}
use adele_queue.Key
use adele_queue.Redis.{Node}
use adele_queue.Redis.View.{Keyspace, view}
use adele_queue.Redis.Visits.{visits, Spaced, Serves, IsWaiting, IsEnded, IsTracked}
use adele_queue.Redis.Visits.Life.{visits-IsTracked}
use adele_queue.Redis.Steps.{arriving, step, steps}
use adele_queue.Redis.Steps.System.{holding, update, tally, System, stepped, Reach, here, next}
use adele_queue.Redis.Steps.Exclusive.{IsExclusive, Reach-IsExclusive}
use adele_queue.Redis.Steps.Calls.Bound.{Reach-calls}
use adele_queue.Reaper.Run.{no_tally, reap_key}
use adele_queue.Reaper.Orphan.Recovered.{orphan_recovered}
use adele_queue.Memory.Attempts.Until.{world_after, SucceedsAfter}
use adele_queue.Dispatch.{redis_job, dispatch_redis}
use adele_queue.Dispatch.Life.{visits-dispatch_redis_failing, visits-dispatch_redis_succeeding}
use adele_queue.Scenarios.World.{Tables, fails, channel, queue, job, database}
use adele_queue.Scenarios.Server.{server, server-IsReliable, lower, lower-IsLowerTable}

abbrev id : Text
id = codes "7"

-- The sample queue with a handler for the job.
abbrev serving : Handler ℕ → Queue ℕ
serving h = record queue { handlers = ("mail", record { plain = some h; ctx = none }) ∷ [] }

serves : (h : Handler ℕ) → Serves (serving h) "mail" h 1
unfolding lookup
serves h = record { entry = refl; limit = refl; small = omega arith }

-- A visit every 100 seconds.
abbrev clocks : ℕ → ℕ → Instant
clocks i j = (i + 1) * 100000000000

spaced : Spaced 1 clocks
spaced i = omega arith

abbrev hash : Hash
hash = record zero_hash {
  id = id;
  name = "mail";
  payload = some (codes "hi");
  retry = true;
  retry_after = at 50;
}

abbrev waiting : Keyspace
waiting j = if text_eq (key pending channel id) j then some hash else none

abbrev node : Keyspace → Node Keyspace ℕ Tables
node ks = record { server = ks; world = 0; db = ([], []) }

waits : view server waiting (key pending channel id) ≡ some hash
unfolding key text_eq
waits = refl

waiting-IsWaiting : IsWaiting server channel id "mail" fails (codes "hi") 0 0 0 50 (node waiting)
unfolding world_after
waiting-IsWaiting = record {
  hash = hash;
  held = waits;
  id_kept = refl;
  name_kept = refl;
  payload_kept = refl;
  retries = refl;
  counter = refl;
  due = refl;
  world_is = refl;
}

visits-IsTracked_example :
    IsTracked server channel id "mail" fails
      (codes "hi")
      0
      1
      3
      (visits server database (serving fails) (key pending channel id) 3 clocks (node waiting))
visits-IsTracked_example =
    visits-IsTracked server server-IsReliable database (serving fails) channel id "mail" fails
      (codes "hi") 0 1 (serves fails) (ground arith) (ground arith) 3 50 clocks (node waiting)
      waiting-IsWaiting

listed :
    (h : Handler ℕ) → contains (serving h).queue_channels (serving h).queue_channel_default ≡ true
unfolding contains text_eq
listed h = refl

-- The keyspace without a key, and the sample job as it is stored in it.
abbrev empty : Keyspace
empty k = none

abbrev stored_job : Handler ℕ → Job ℕ
stored_job h = redis_job server lower (serving h) id 5 job

abbrev dispatched : Handler ℕ → Node Keyspace ℕ Tables
dispatched h = node (dispatch_redis server lower (serving h) id 5 job empty).0

visits-dispatch_redis_failing_example :
    IsEnded server (stored_job fails).queue id "mail" fails (codes "hi") 0 Key.failed "failed" 2 (
      visits server database
        (serving fails)
        (key pending (stored_job fails).queue id)
        3
        clocks
        (dispatched fails))
visits-dispatch_redis_failing_example =
    visits-dispatch_redis_failing server server-IsReliable database lower lower-IsLowerTable
      (serving fails) id 5 job (node empty) fails 1 (serves fails) 3 clocks (listed fails)
      (ground arith) (ground arith) refl refl refl spaced (omega arith) (λ p w. ground arith)
      (omega arith)

-- A handler that fails at its first call.
abbrev recovers : Handler ℕ
recovers payload zero = (failed (codes "no route"), 1)
recovers payload (suc calls) = (succeeded, calls + 2)

recovers-SucceedsAfter : SucceedsAfter recovers (some (codes "hi")) 1 0
unfolding world_after
recovers-SucceedsAfter = record { fails = fails_first; succeeds = refl }
  where
    fails_first :
        (i : ℕ)
        → i < 1
        → (recovers (some (codes "hi")) (world_after recovers (some (codes "hi")) i 0)).0
          ≢ succeeded
    fails_first zero lt = ground arith
    fails_first (suc i) lt = absurd (omega arith)

visits-dispatch_redis_succeeding_example :
    IsEnded server
      (stored_job recovers).queue
      id
      "mail"
      recovers
      (codes "hi")
      0
      complete
      "completed"
      2
      (visits server database
        (serving recovers)
        (key pending (stored_job recovers).queue id)
        3
        clocks
        (dispatched recovers))
visits-dispatch_redis_succeeding_example =
    visits-dispatch_redis_succeeding server server-IsReliable database lower lower-IsLowerTable
      (serving recovers) id 5 job (node empty) recovers 1 (serves recovers) 3 clocks
      (listed recovers) (ground arith) (ground arith) refl refl refl spaced (omega arith) 1
      recovers-SucceedsAfter (omega arith) (omega arith)

-- Workers that all stand before the pending key.
abbrev start : System Keyspace ℕ Tables
start = record { node = node waiting; places = λ i. arriving; calls = 0 }

-- The system after a step of worker `i`.
abbrev after : ℕ → System Keyspace ℕ Tables → System Keyspace ℕ Tables
after i s = record {
  node = (step server database (serving fails) channel id (clocks 0) (s.places i) s.node).0;
  places =
      update s.places i
        (step server database (serving fails) channel id (clocks 0) (s.places i) s.node).1;
  calls = tally (s.places i) s.calls;
}

moves :
    (i : ℕ) {s t : System Keyspace ℕ Tables}
    → Reach server database (serving fails) channel id s t
    → Reach server database (serving fails) channel id s (after i t)
moves i {s} {t} r = next r (stepped i (clocks 0) t)

-- Two workers race for the key, and the first goes on through the call of the handler.
abbrev race : System Keyspace ℕ Tables
race = after 0 (after 0 (after 0 (after 0 (after 1 (after 0 start)))))

races : Reach server database (serving fails) channel id start race
races = moves 0 (moves 0 (moves 0 (moves 0 (moves 1 (moves 0 here)))))

all_free : (i : ℕ) → holding (start.places i) ≡ false
unfolding holding
all_free i = refl

Reach-IsExclusive_example : IsExclusive server channel id race
Reach-IsExclusive_example =
    Reach-IsExclusive server server-IsReliable database (serving fails) channel id all_free races

fresh : (x : Hash) → view server waiting (key pending channel id) ≡ some x → x.retry_counter ≡ pos 0
fresh x held = ground (arith, held, waits)

Reach-calls_example :
    (race.calls ≤ 2)
    × ((x : Hash)
        → view server race.node.server (key pending channel id) ≡ some x
        → (x.retry_counter ≡ pos race.calls) × (race.calls ≤ 1))
Reach-calls_example =
    Reach-calls server server-IsReliable database (serving fails) channel id 1 refl (omega arith)
      all_free fresh refl races

-- A queue that allows two attempts.
abbrev patient : Queue ℕ
patient = record (serving recovers) { max_attempts = pos 2 }

patient-Serves : Serves patient "mail" recovers 2
unfolding lookup
patient-Serves = record { entry = refl; limit = refl; small = omega arith }

recoverer_waits : IsWaiting server channel id "mail" recovers (codes "hi") 0 0 0 50 (node waiting)
unfolding world_after
recoverer_waits = record {
  hash = hash;
  held = waits;
  id_kept = refl;
  name_kept = refl;
  payload_kept = refl;
  retries = refl;
  counter = refl;
  due = refl;
  world_is = refl;
}

-- The worker takes the job at 100 seconds, the reaper comes at 500, and visits follow from 1000 on.
abbrev taken_at : ℕ → Instant
taken_at i = 100000000000

abbrev reaped_at : ℕ → Instant
reaped_at i = 500000000000

abbrev visited_at : ℕ → ℕ → Instant
visited_at i j = (i + 10) * 100000000000

orphan_recovered_example :
    IsEnded server channel id "mail" recovers (codes "hi") 0 complete "completed" 2 (
      visits server database patient
        (key pending channel id)
        3
        visited_at
        (reap_key server database patient reaped_at
          (key locked channel id)
          (steps server database patient channel id taken_at 2 arriving (node waiting)).0
          no_tally).0)
unfolding recoverer_waits
orphan_recovered_example =
    orphan_recovered server server-IsReliable database patient channel id "mail" recovers
      (codes "hi") 0 2 patient-Serves 50 300 1 3 taken_at reaped_at visited_at no_tally
      (node waiting) (ground arith) (ground arith) refl (omega arith) recoverer_waits refl
      (omega arith) recovers-SucceedsAfter (omega arith) (omega arith) (omega arith) (omega arith)
      (λ i. omega arith)
