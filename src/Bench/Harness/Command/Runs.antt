-- ===== src/Bench/Harness/Command/Runs.antt =====
-- cmd/queuebench/main.go, over provider.go, api/queue.go and internal/bench/benchjobs/registry.go:
-- the process of the harness from its settings to the signal.
use adele_queue.Base.{
  ℕ, ◌≤◌, ◌≡◌, ◌∙◌, refl, ◌∷◌, [], List, Option, none, some, String, Bool, ap, All,
}
use adele_queue.Base.Int.{ℤ, pos}
use adele_queue.Base.Text.{Text}
use adele_queue.Time.{Instant}
use adele_queue.Job.{Job}
use adele_queue.Config.{Configuration}
use adele_queue.Queue.{App, redis_cache, Queue}
use adele_queue.Provider.{ServiceProvider, configure, register, installed, boot}
use adele_queue.Pool.{Pool, close_redis, replicate}
use adele_queue.Redis.Scan.{scanning}
use adele_queue.Bench.{World}
use adele_queue.Bench.Payloads.{Json, Float}
use adele_queue.Bench.Registry.{Answer, register_all, bench_jobs}
use adele_queue.Bench.Registry.Wired.{IsWired, register_all-IsWired}
use adele_queue.Bench.Stress.{Gauge, Roll}
use adele_queue.Bench.Harness.{
  bench_settings, Registered, lookup_queue_service, share_queue, Flags, Report, run_batches,
}
use adele_queue.Bench.Harness.Boot.{no_pool, harness_boots}
use adele_queue.Bench.Harness.Command.{
  blocked, run_queue, close_found, main_command, listen_for_shutdown,
}

module _ {F Q : Type 0} (json : Json F) (float : Float F)
    (dispatch : Queue (World F) → Job (World F) → Q → Answer × Q) (flags : Flags) (now : Instant)
    (gauge : Gauge) (order : List (ℤ × Roll)) (env : Option Text) (s : Q) where
  shared_found :
      (q : Queue (World F)) (p' : ServiceProvider (World F)) (others : List (Registered (World F)))
      → lookup_queue_service (
          record { name = "queue"; queue_provider = some (record p' { service = some q }) }
          ∷ others)
        ≡ some q
  unfolding lookup_queue_service
  shared_found q p' others = refl

  -- Where the registration reports no error, the process blocks after its batches.
  blocks :
      (q : Queue (World F)) (providers : List (Registered (World F)))
      → lookup_queue_service providers ≡ some q
      → (register_all json float q).1 ≡ []
      → (reports : List Report) × (s' : Q) × ((main_command json float dispatch flags now gauge
            order env none providers s).1
          ≡ blocked (share_queue (register_all json float q).0 providers) [] reports s')
  unfolding main_command run_queue
  blocks q providers found clean =
      let q' = (register_all json float q).0 in
      let ran = run_batches json float (dispatch q') flags now gauge order s in
      (ran.0, ran.1, rw found (rw clean refl))

  module _ (q : Queue (World F)) (p' : ServiceProvider (World F))
      (others : List (Registered (World F))) (signal : String) (rpc : Option Text) (pool : Pool)
      (found : lookup_queue_service (record { name = "queue"; queue_provider = some p' } ∷ others)
        ≡ some q) where
    -- A signal closes the queue that is found.
    closed :
        (listen_for_shutdown signal rpc
          (record { name = "queue"; queue_provider = some p' } ∷ others)
          pool).1
        ≡ some (record q { cancelled = Bool.true })
    unfolding listen_for_shutdown close_found close_redis
    closed = rw found refl

    stopped :
        (listen_for_shutdown signal rpc
          (record { name = "queue"; queue_provider = some p' } ∷ others)
          pool).2
        ≡ record pool { shutdown = Bool.true }
    unfolding listen_for_shutdown close_found close_redis
    stopped = rw found refl

  -- The harness, where the application has a redis cache, the RPC server starts and the runtime can
  -- make the slice of the 10000 failed ids: whatever the provider held before, the configuration
  -- file says, the flags ask for and the batches report, `main` finds the queue of its settings,
  -- with 5 attempts, a lock timeout of 10 and a reaper's interval of 5 seconds, in the provider,
  -- which stands first. It registers every handler on it without an error, so that each job that a
  -- constructor of `SeedAll` builds finds its handler, and blocks with 4 workers and the reaper
  -- running. A signal then sets the shutdown that ends them, and cancels the context of the queue
  -- that holds those handlers.
  pub harness_runs :
      (room : ℕ) (a : App) (prefix : String) (loaded : Option Configuration)
      (p : ServiceProvider (World F)) (others : List (Registered (World F))) (signal : String)
      (rpc : Option Text)
      → 10000 ≤ room
      → a.cache ≡ some (redis_cache prefix)
      → (q : Queue (World F)) × (p' : ServiceProvider (World F)) × (register room a loaded
            (configure bench_settings p)
          ≡ installed p')
        × (q.max_attempts ≡ pos 5)
        × (q.lock_timeout ≡ pos 10)
        × (q.reaper_interval ≡ pos 5)
        × let providers = record { name = "queue"; queue_provider = some p' } ∷ others in
          let filled = (register_all json float q).0 in
          let running = record no_pool {
            redis_workers = replicate 4 (scanning 0 0);
            reapers = 1;
          } in
          let signalled =
            listen_for_shutdown signal rpc (share_queue filled providers) (boot p' no_pool) in
          ((reports : List Report) × (s' : Q) × ((main_command json float dispatch flags now gauge
                order env none providers s).1
              ≡ blocked (share_queue filled providers) [] reports s'))
          × All (IsWired filled) (bench_jobs json float now)
          × (boot p' no_pool ≡ running)
          × (signalled.1 ≡ some (record filled { cancelled = Bool.true }))
          × (signalled.2 ≡ record running { shutdown = Bool.true })
  unfolding share_queue
  harness_runs room a prefix loaded p others signal rpc fits cached =
      let (q, p', made, found, booted, attempts, timeout, interval, empty) =
        harness_boots room a prefix loaded p others fits cached in
      let wired = register_all-IsWired json float q now empty in
      let filled = (register_all json float q).0 in
      let sharing = record p' { service = some filled } in
      (
        q,
        p',
        made,
        attempts,
        timeout,
        interval,
        (
          blocks q (record { name = "queue"; queue_provider = some p' } ∷ others) found wired.0,
          wired.1,
          booted,
          closed filled sharing others signal rpc (boot p' no_pool) (shared_found filled p' others),
          stopped filled sharing others signal rpc (boot p' no_pool) (shared_found filled p' others)
              ∙ ap (λ (pool : Pool). record pool { shutdown = Bool.true }) booted,
        ),
      )
