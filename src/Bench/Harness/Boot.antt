-- ===== src/Bench/Harness/Boot.antt =====
-- cmd/queuebench/main.go, `bootstrapApplication`, over provider.go and api/queue.go: what the
-- harness runs on.
use adele_queue.Base.{ℕ, ◌≤◌, arith, ◌≡◌, refl, [], ◌∷◌, Bool, List, Option, some, String}
use adele_queue.Base.Int.{pos, ltb_ℤ}
use adele_queue.Config.{Configuration, set_config_defaults}
use adele_queue.Queue.{App, redis_cache, Queue, assemble, build_queue}
use adele_queue.Provider.{ServiceProvider, configured, configure, register, installed, boot}
use adele_queue.Registry.{lookup}
use adele_queue.Pool.{Pool, replicate, listen}
use adele_queue.Redis.Scan.{scanning}
use adele_queue.Bench.Harness.{bench_settings, lookup_queue_service, Registered}

abbrev pub no_pool : Pool
no_pool = record { memory_workers = 0; redis_workers = []; reapers = 0; shutdown = Bool.false }

roomy : {room : ℕ} → 10000 ≤ room → ltb_ℤ (pos room) (pos 10000) ≡ Bool.false
roomy fits = ground arith

-- Where the application has a redis cache and the runtime the room, the settings of the harness,
-- through `Configure`, `Register` and `Boot` of the provider, whatever it held before and whatever
-- the configuration file says, give a queue that `lookupQueueService` finds where the provider
-- stands first, with 5 attempts, no handler, a lock timeout of 10 and a reaper's interval of 5
-- seconds, and start its 4 workers and its reaper.
pub harness_boots :
    {W : Type 0} (room : ℕ) (a : App) (prefix : String) (loaded : Option Configuration)
    (p : ServiceProvider W) (others : List (Registered W))
    → 10000 ≤ room
    → a.cache ≡ some (redis_cache prefix)
    → (q : Queue W) × (p' : ServiceProvider W) × (register room a loaded
          (configure bench_settings p)
        ≡ installed p')
      × (lookup_queue_service (record { name = "queue"; queue_provider = some p' } ∷ others)
          ≡ some q)
      × (boot p' no_pool
          ≡ record no_pool { redis_workers = replicate 4 (scanning 0 0); reapers = 1 })
      × (q.max_attempts ≡ pos 5)
      × (q.lock_timeout ≡ pos 10)
      × (q.reaper_interval ≡ pos 5)
      × (q.handlers ≡ [])
unfolding configure configured register build_queue set_config_defaults assemble boot listen lookup
    lookup_queue_service
harness_boots room a prefix loaded p others fits cached =
    let q = assemble (some a) (set_config_defaults (configured bench_settings p.config)) in
    (
      q,
      record (configure bench_settings p) { service = some q },
      rw (roomy fits) refl,
      refl,
      rw (cached, assemble) refl,
      refl,
      refl,
      refl,
      refl,
    )
