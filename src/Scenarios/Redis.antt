-- ===== src/Scenarios/Redis.antt =====
-- The theorems on the redis workers at a sample queue and server.
use adele_queue.Base.{ℕ, ◌+◌, ◌≡◌, refl, arith, [], ◌∷◌, none, some, if◌then◌else◌}
use adele_queue.Base.Text.{Text, text_eq, codes}
use adele_queue.Time.{Instant, at}
use adele_queue.Job.{Hash, zero_hash, scan_struct}
use adele_queue.Queue.{Queue}
use adele_queue.Key.{pending, locked, key}
use adele_queue.Redis.{Node}
use adele_queue.Redis.View.{Keyspace, moved, view}
use adele_queue.Redis.Handle.{call_handler, handle_redis_job}
use adele_queue.Redis.Handle.Transitions.{transition, handle_redis_job-view}
use adele_queue.Redis.Scan.{proceed, claim}
use adele_queue.Redis.Scan.Claim.{locked_hash, claim_due, claim_early}
use adele_queue.Scenarios.World.{Tables, succeeds, channel, queue, job, database}
use adele_queue.Scenarios.Server.{server, server-IsReliable}

abbrev id : Text
id = codes "7"

-- A clock that starts at 100.
abbrev clock : ℕ → Instant
clock i = i + 100

-- The sample queue with a handler for the job.
abbrev serving : Queue ℕ
serving = record queue { handlers = ("mail", record { plain = some succeeds; ctx = none }) ∷ [] }

abbrev hash : Hash
hash = record zero_hash { id = id; name = "mail"; retry_after = at 50; status = "pending" }

-- One hash under one key.
abbrev only : Text → Hash → Keyspace
only k h j = if text_eq k j then some h else none

abbrev node : Text → Hash → Node Keyspace ℕ Tables
node k h = record { server = only k h; world = 0; db = ([], []) }

handle_redis_job-view_example :
    view server
      (handle_redis_job server database serving channel job id clock
        (node (key locked channel id) hash)).server
      (key locked channel id)
    ≡ transition serving channel id clock
        (call_handler serving job 0).0
        job
        (only (key locked channel id) hash)
        (key locked channel id)
handle_redis_job-view_example =
    handle_redis_job-view server server-IsReliable database serving channel id clock job
      (node (key locked channel id) hash) refl (key locked channel id)

abbrev empty : Node Keyspace ℕ Tables
empty = record { server = λ k. none; world = 0; db = ([], []) }

abbrev waiting : Hash → Node Keyspace ℕ Tables
waiting h = node (key pending channel id) h

waits : (h : Hash) → view server (waiting h).server (key pending channel id) ≡ some h
unfolding key text_eq
waits h = refl

claim_due_example :
    ((j : Text)
      → view server (claim server database serving channel id clock (waiting hash)).0.server j
        ≡ transition serving channel id
            (λ i. clock (i + 2))
            (call_handler serving (scan_struct (locked_hash clock hash)) 0).0
            (scan_struct (locked_hash clock hash))
            (moved
              (key pending channel id)
              (key locked channel id)
              (locked_hash clock hash)
              (only (key pending channel id) hash))
            j)
    × ((claim server database serving channel id clock (waiting hash)).1 ≡ proceed)
claim_due_example =
    claim_due server server-IsReliable database serving channel id clock hash 50 (waiting hash)
      (waits hash) refl (omega arith) refl

abbrev early : Hash
early = record hash { retry_after = at 500 }

claim_early_example :
    ((j : Text)
      → view server (claim server database serving channel id clock (waiting early)).0.server j
        ≡ moved
            (key locked channel id)
            (key pending channel id)
            (locked_hash clock early)
            (only (key pending channel id) early)
            j)
    × ((claim server database serving channel id clock (waiting early)).0.world ≡ 0)
    × ((claim server database serving channel id clock (waiting early)).1 ≡ proceed)
claim_early_example =
    claim_early server server-IsReliable database serving channel id clock early 500 (waiting early)
      (waits early) refl (omega arith)
