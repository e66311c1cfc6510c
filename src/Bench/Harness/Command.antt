-- ===== src/Bench/Harness/Command.antt =====
-- cmd/queuebench/main.go, `main` and `listenForShutdown`: what the process of the harness does from
-- its start to its end.
pub mod Runs
use adele_queue.Base.{List, [], ◌∷◌, Option, none, some, String}
use adele_queue.Base.Int.{ℤ}
use adele_queue.Base.Text.{Text}
use adele_queue.Time.{Instant}
use adele_queue.Job.{Job}
use adele_queue.Queue.{Queue}
use adele_queue.Registry.{RegisterError}
use adele_queue.Pool.{Pool, close_redis}
use adele_queue.Bench.{World}
use adele_queue.Bench.Payloads.{Json, Float}
use adele_queue.Bench.Registry.{Answer, register_all}
use adele_queue.Bench.Stress.{Gauge, Roll}
use adele_queue.Bench.Harness.{
  Registered, lookup_queue_service, share_queue, Flags, Report, run_batches,
}

-- What the process prints of its environment file.
pub data Notice : Type 0 where
  env_not_loaded : Text → Notice

-- How `main` goes: it ends by `log.Fatal`, or blocks, with the providers, the errors of
-- `RegisterAll` and the reports of the batches.
pub data Run (W Q : Type 0) : Type 0 where
  no_rpc : Text → Run W Q
  no_queue : Run W Q
  blocked : List (Registered W) → List (String × RegisterError) → List Report → Q → Run W Q

module _ {F Q : Type 0} (json : Json F) (float : Float F)
    (dispatch : Queue (World F) → Job (World F) → Q → Answer × Q) where
  -- What follows once the queue was looked up: the handlers, and then the batches on that queue.
  run_queue :
      Flags
      → Instant
      → Gauge
      → List (ℤ × Roll)
      → List (Registered (World F))
      → Option (Queue (World F))
      → Q
      → Run (World F) Q
  run_queue flags now gauge order providers none s = no_queue
  run_queue flags now gauge order providers (some q) s =
      let (q', es) = register_all json float q in
      let (reports, s') = run_batches json float (dispatch q') flags now gauge order s in
      blocked (share_queue q' providers) es reports s'

  -- `env` is the error of loading `.env.queuebench`, `rpc` that of `rpcserver.Start`; `providers`
  -- are the registered ones after `bootstrapApplication`.
  unfoldable pub main_command :
      Flags
      → Instant
      → Gauge
      → List (ℤ × Roll)
      → Option Text
      → Option Text
      → List (Registered (World F))
      → Q
      → List Notice × Run (World F) Q
  unfolding run_queue
  main_command flags now gauge order env rpc providers s = (
    elim env [ none ↦ [] | some e ↦ env_not_loaded e ∷ [] ],
    elim rpc [
      | some e ↦ no_rpc e
      | none ↦ run_queue flags now gauge order providers (lookup_queue_service providers) s
    ],
  )

-- What `listenForShutdown` prints after the signal.
pub data Farewell : Type 0 where
  received : String → Farewell
  rpc_not_stopped : Text → Farewell
  goodbye : Farewell

-- `Close` of the queue that is found, whose backend is "redis".
close_found : {W : Type 0} → Option (Queue W) → Pool → Option (Queue W) × Pool
close_found none pool = (none, pool)
close_found (some q) pool = let (q', pool') = close_redis q pool in (some q', pool')

-- From the signal to `os.Exit(0)`; `rpc` is the error of `rpcserver.Stop`.
unfoldable pub listen_for_shutdown :
    {W : Type 0}
    → String
    → Option Text
    → List (Registered W)
    → Pool
    → List Farewell × Option (Queue W) × Pool
unfolding close_found
listen_for_shutdown signal rpc providers pool =
    let (q, pool') = close_found (lookup_queue_service providers) pool in
    (
      elim rpc [
        | none ↦ received signal ∷ goodbye ∷ []
        | some e ↦ received signal ∷ rpc_not_stopped e ∷ goodbye ∷ []
      ],
      q,
      pool',
    )
