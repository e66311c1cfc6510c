-- ===== src/Bench/Harness.antt =====
-- cmd/queuebench/main.go: the settings of the harness, its lookup of the queue, and the jobs that
-- its flags ask for.
pub mod Boot
pub mod Command
use adele_queue.Base.{Bool, List, [], ◌∷◌, ◌++◌, Option, none, some, String, str_eq, if◌then◌else◌}
use adele_queue.Base.Int.{ℤ, pos, ltb_ℤ}
use adele_queue.Base.Text.{Text}
use adele_queue.Time.{Instant, seconds}
use adele_queue.Job.{Job}
use adele_queue.Queue.{Queue}
use adele_queue.Provider.{
  Value, string_value, int_value, bool_value, strings_value, ServiceProvider,
}
use adele_queue.Bench.{World}
use adele_queue.Bench.Payloads.{Json, Float}
use adele_queue.Bench.Slow.{new_sleep_job}
use adele_queue.Bench.Registry.{Answer, sent, refused, SeedError, seed_all}
use adele_queue.Bench.Stress.{StressResult, Gauge, Roll, stress}

-- The map that `bootstrapApplication` sets for the provider "queue".
abbrev pub bench_settings : List (String × Value)
bench_settings =
    ("backend", string_value "redis")
    ∷ ("worker_count", int_value (pos 4))
    ∷ ("max_attempts", int_value (pos 5))
    ∷ ("high_water_mark", int_value (pos 10000))
    ∷ ("queue_channels", strings_value ("job" ∷ "email" ∷ []))
    ∷ ("queue_channel_default", string_value "job")
    ∷ ("debug", bool_value Bool.false)
    ∷ ("redis_prefix", string_value "queuebench")
    ∷ ("redis_scan_interval", int_value (pos 1))
    ∷ ("lock_timeout", int_value (pos 10))
    ∷ ("reaper_interval", int_value (pos 5))
    ∷ []

-- A registered provider: its name, and itself where it is a `*queue.ServiceProvider`.
pub record Registered (W : Type 0) : Type 0 where
  pub name : String
  pub queue_provider : Option (ServiceProvider W)

unfoldable pub lookup_queue_service : {W : Type 0} → List (Registered W) → Option (Queue W)
lookup_queue_service [] = none
lookup_queue_service (sp ∷ sps) =
    let rest = lookup_queue_service sps in
    if str_eq sp.name "queue"
    then elim sp.queue_provider [ none ↦ rest | some qp ↦ qp.service ]
    else rest

-- The providers hold a pointer to their queue: what is done to the queue that is found, that
-- provider holds afterwards.
unfoldable pub share_queue : {W : Type 0} → Queue W → List (Registered W) → List (Registered W)
share_queue q [] = []
share_queue q (sp ∷ sps) =
    let rest = sp ∷ share_queue q sps in
    if str_eq sp.name "queue"
    then elim sp.queue_provider [
      | none ↦ rest
      | some qp ↦ record sp { queue_provider = some (record qp { service = some q }) } ∷ sps
    ]
    else rest

pub record Flags : Type 0 where
  pub seed_jobs : Bool
  pub stress_jobs : ℤ
  pub stress_concurrency : ℤ
  pub stress_mode : String
  pub long_sleep : ℤ

-- What the harness reports of the jobs.
pub data Report : Type 0 where
  no_sleep_job : Report
  sleep_refused : Text → Report
  sleep_sent : ℤ → Report
  seed_errors : List SeedError → Report
  seeded : Report
  stressed : Option StressResult → Report

module _ {F Q : Type 0} (json : Json F) (float : Float F)
    (dispatch : Job (World F) → Q → Answer × Q) where
  send_sleep : ℤ → Option (Job (World F)) → Q → Report × Q
  send_sleep n none q = (no_sleep_job, q)
  send_sleep n (some job) q =
      let (a, q') = dispatch job q in
      (elim a [ sent id ↦ sleep_sent n | refused e ↦ sleep_refused e ], q')

  seed_report : List SeedError → Report
  seed_report [] = seeded
  seed_report (e ∷ es) = seed_errors (e ∷ es)

  run_stress : Flags → Gauge → List (ℤ × Roll) → Q → Report × Q
  run_stress flags gauge order q =
      elim (stress json dispatch
        (record {
          count = flags.stress_jobs;
          concurrency = flags.stress_concurrency;
          mode = flags.stress_mode;
        })
        gauge order q) [ none ↦ (stressed none, q) | some (q', r) ↦ (stressed (some r), q') ]

  sleep_batch : Flags → Q → List Report × Q
  unfolding send_sleep
  sleep_batch flags q =
      if ltb_ℤ (pos 0) flags.long_sleep
      then (let (r, q') =
            send_sleep flags.long_sleep (new_sleep_job json (seconds flags.long_sleep)) q in
          (r ∷ [], q'))
      else ([], q)

  seed_batch : Flags → Instant → Q → List Report × Q
  unfolding seed_report
  seed_batch flags now q =
      if flags.seed_jobs
      then (let (es, q') = seed_all json float dispatch now q in (seed_report es ∷ [], q'))
      else ([], q)

  stress_batch : Flags → Gauge → List (ℤ × Roll) → Q → List Report × Q
  unfolding run_stress
  stress_batch flags gauge order q =
      if ltb_ℤ (pos 0) flags.stress_jobs
      then (let (r, q') = run_stress flags gauge order q in (r ∷ [], q'))
      else ([], q)

  -- The three batches, in the order of the code; `now` is read by a constructor of the seed.
  unfoldable pub run_batches : Flags → Instant → Gauge → List (ℤ × Roll) → Q → List Report × Q
  unfolding sleep_batch seed_batch stress_batch
  run_batches flags now gauge order q =
      let (r1, q1) = sleep_batch flags q in
      let (r2, q2) = seed_batch flags now q1 in
      let (r3, q3) = stress_batch flags gauge order q2 in (r1 ++ r2 ++ r3, q3)
