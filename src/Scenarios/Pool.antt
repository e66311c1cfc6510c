-- ===== src/Scenarios/Pool.antt =====
-- The theorems on the workers of a redis queue at a sample pool.
use adele_queue.Base.{ℕ, ◌+◌, ◌≡◌, ◌≢◌, ◌≤◌, ◌<◌, ◌⊎◌, refl, false, List, [], ◌∷◌, none}
use adele_queue.Redis.{Node}
use adele_queue.Redis.View.{Keyspace}
use adele_queue.Redis.Scan.{Worker, scanning, sleeping, scan_round, unwind}
use adele_queue.Pool.{Pool, close_redis, Turn, turn, Turns, none_left, one_more, outstanding, pages}
use adele_queue.Pool.Drain.{close_redis-Turns}
use adele_queue.Scenarios.World.{Tables, queue, database}
use adele_queue.Scenarios.Server.{server}

abbrev node : Node Keyspace ℕ Tables
node = record { server = λ k. none; world = 0; db = ([], []) }

-- A worker with two calls of its scan under way, before its check, and one in its sleep.
abbrev pool : Pool
pool = record {
  memory_workers = 0;
  redis_workers = scanning 1 17 ∷ sleeping 0 0 ∷ [];
  reapers = 1;
  shutdown = false;
}

-- The first worker's step.
one_turn :
    Turns server database
      (close_redis queue pool).0
      (close_redis queue pool).1.shutdown
      1
      node
      node
      (close_redis queue pool).1.redis_workers
      (scanning 0 0 ∷ sleeping 0 0 ∷ [])
unfolding close_redis scan_round unwind
one_turn =
    one_more
      (turn [] (sleeping 0 0 ∷ []) (scanning 1 17) (scanning 0 0) (λ i j. 100) refl tt refl refl)
      (none_left node (scanning 0 0 ∷ sleeping 0 0 ∷ []))

close_redis-Turns_example :
    (outstanding (scanning 0 0 ∷ sleeping 0 0 ∷ []) + 1 ≤ outstanding pool.redis_workers)
    × (((node ≡ node) × (pages (scanning 0 0 ∷ sleeping 0 0 ∷ []) ≤ pages pool.redis_workers))
        ⊎ (pages (scanning 0 0 ∷ sleeping 0 0 ∷ []) < pages pool.redis_workers))
    × (outstanding (scanning 0 0 ∷ sleeping 0 0 ∷ []) ≢ 0
        → (n : Node Keyspace ℕ Tables) × (ws : List Worker) × Turn server database
            (close_redis queue pool).0
            (close_redis queue pool).1.shutdown
            node
            n
            (scanning 0 0 ∷ sleeping 0 0 ∷ [])
            ws)
close_redis-Turns_example = close_redis-Turns server database queue pool one_turn
