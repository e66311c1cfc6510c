-- ===== src/Scenarios/Bench.antt =====
-- The theorems on the benchmark's jobs at a sample codec, which writes what the jobs with counters
-- need.
use mathlib.Core.Option.{some-injective}
use adele_queue.Base.{
  ℕ, suc, ◌≡◌, inl, refl, sym, ap, arith, Bool, true, false, List, leb, ltb, [], ◌∷◌, none, some,
  All,
}
use adele_queue.Base.Int.{ℤ, pos, pos_part}
use adele_queue.Base.Text.{Text, codes, text_eq}
use adele_queue.Job.{Job, zero_job}
use adele_queue.Queue.{App, redis_cache, Queue}
use adele_queue.Memory.{Mem}
use adele_queue.Memory.Attempts.{life}
use adele_queue.Registry.{lookup}
use adele_queue.Pool.{replicate}
use adele_queue.Provider.{ServiceProvider, configure, register, installed, boot}
use adele_queue.Redis.Scan.{scanning}
use adele_queue.Bench.{World, Codec, decoded, invalid, new_retried_job}
use adele_queue.Bench.Payloads.{FailThenSucceedPayload, Json, Float}
use adele_queue.Bench.Flaky.{fail_then_succeed_handler, new_fail_then_succeed_job}
use adele_queue.Bench.Life.{new_fail_then_succeed_job-life}
use adele_queue.Bench.Registry.{Answer, sent, register_all, bench_jobs}
use adele_queue.Bench.Registry.Wired.{IsWired}
use adele_queue.Bench.Stress.{StressConfig, StressResult, Gauge, Roll, stress}
use adele_queue.Bench.Stress.Accounting.{IsSum, IsPeak, stress-IsSum}
use adele_queue.Bench.Harness.{share_queue, bench_settings, Registered, Flags, Report}
use adele_queue.Bench.Harness.Boot.{no_pool}
use adele_queue.Bench.Harness.Command.{blocked, main_command, listen_for_shutdown}
use adele_queue.Bench.Harness.Command.Runs.{harness_runs}
use adele_queue.Scenarios.World.{Tables, app, configuration, queue, database}

-- A codec that knows no text.
abbrev mute : {P : Type 0} → Codec P
mute = record { marshal = λ p. none; unmarshal = λ raw. invalid (codes "EOF") }

-- The number of failures in front of the id.
abbrev counted_id : Text → FailThenSucceedPayload
counted_id [] = record { id = []; fail_times = pos 0 }
counted_id (n ∷ id) = record { id = id; fail_times = pos n }

abbrev json : Json ℕ
json = record {
  hello = record { marshal = λ p. some p.name; unmarshal = λ raw. decoded (record { name = raw }) };
  sum = mute;
  counter = mute;
  sleep = mute;
  busy_loop = mute;
  fanout = mute;
  always_error = mute;
  panic = mute;
  fail_then_succeed = record {
    marshal = λ p. some (pos_part p.fail_times ∷ p.id);
    unmarshal = λ raw. decoded (counted_id raw);
  };
  intermittent = mute;
  exhaust_retries = mute;
  large = mute;
  unicode = mute;
  nested = mute;
}

-- Percents for floats.
abbrev percent : Float ℕ
percent = record { lt = ltb; le = leb; zero_float = 0; one_float = 100; half_float = 50 }

abbrev world : World ℕ
world = record {
  printed = [];
  attempts = λ id. pos 0;
  always_error = pos 0;
  rolls = λ i. 50;
  rolled = 0;
}

abbrev bench_queue : Queue (World ℕ)
bench_queue = record {
  backend = "memory";
  cache = none;
  debug = false;
  failed_jobs = [];
  redis = queue.redis;
  worker_count = pos 1;
  max_attempts = pos 3;
  high_water_mark = pos 10;
  framework_log = false;
  queue_channels = queue.queue_channels;
  queue_channel_default = queue.queue_channel_default;
  db = false;
  lock_timeout = pos 300;
  reaper_interval = pos 30;
  handlers = [];
  pending_count = pos 0;
  cancelled = false;
}

abbrev bench_memory : Mem (World ℕ) Tables
bench_memory = record {
  queue = bench_queue;
  sleepers = [];
  senders = [];
  running = [];
  closed = false;
  crashed = false;
  world = world;
  db = ([], []);
}

-- The job of `NewFailThenSucceedJob("flaky", 2)`.
abbrev flaky : Job (World ℕ)
flaky = record zero_job {
  name = "flaky-fail-then-succeed";
  payload = some (2 ∷ codes "flaky");
  handler = some (fail_then_succeed_handler json);
  queue = codes "job";
  retry = Bool.true;
  retry_in_seconds = pos 1;
}

flaky_built : new_fail_then_succeed_job json (codes "flaky") (pos 2) ≡ some flaky
unfolding new_fail_then_succeed_job new_retried_job text_eq
flaky_built = refl

flaky_read :
    (raw : Text)
    → json.fail_then_succeed.marshal (record { id = codes "flaky"; fail_times = pos 2 }) ≡ some raw
    → json.fail_then_succeed.unmarshal raw
      ≡ decoded (record { id = codes "flaky"; fail_times = pos 2 })
flaky_read raw e = ap (λ r. decoded (counted_id r)) (sym (some-injective (2 ∷ codes "flaky") raw e))

new_fail_then_succeed_job-life_example :
    (last : Mem (World ℕ) Tables) × (life database 3 5 flaky bench_memory ≡ some (3, last))
    × (last.world.attempts (codes "flaky") ≡ pos 3)
unfolding lookup
new_fail_then_succeed_job-life_example =
    new_fail_then_succeed_job-life database json 3 (codes "flaky") 2 5 flaky bench_memory
      flaky_built flaky_read (omega arith) (omega arith) refl
      (record { entry = inl refl; limit = refl; alone = refl })

abbrev two_jobs : StressConfig
two_jobs = record { count = pos 2; concurrency = pos 0; mode = "mixed" }

abbrev roll : ℕ → Roll
roll kind = record { kind = kind; millis = 0 }

-- A dispatcher that counts what it accepts.
abbrev accepts : Job (World ℕ) → ℕ → Answer × ℕ
accepts job n = (sent [], suc n)

abbrev gauge : Gauge
gauge = record { start = 5; samples = 7 ∷ 9 ∷ 6 ∷ []; taken = pos 1000 }

stress-IsSum_example :
    (end : ℕ × StressResult) × (stress json accepts two_jobs gauge
        ((pos 1, roll 92) ∷ (pos 0, roll 5) ∷ [])
        0
      ≡ some end)
    × IsSum 2 end.1
    × IsPeak gauge end.1.peak_goroutines
stress-IsSum_example =
    stress-IsSum json accepts two_jobs gauge ((pos 1, roll 92) ∷ (pos 0, roll 5) ∷ []) 0 2 refl
      (omega arith) (omega arith) refl

abbrev cached : App
cached = record app { cache = some (redis_cache "adele") }

abbrev no_service : ServiceProvider (World ℕ)
no_service = record { service = none; config = configuration; has_config = false }

abbrev flags : Flags
flags = record {
  seed_jobs = true;
  stress_jobs = pos 2;
  stress_concurrency = pos 1;
  stress_mode = "hello";
  long_sleep = pos 0;
}

abbrev rolls : List (ℤ × Roll)
rolls = (pos 1, roll 92) ∷ (pos 0, roll 5) ∷ []

harness_runs_example :
    (q : Queue (World ℕ)) × (p' : ServiceProvider (World ℕ)) × (register 10000 cached none
        (configure bench_settings no_service)
      ≡ installed p')
    × (q.max_attempts ≡ pos 5)
    × (q.lock_timeout ≡ pos 10)
    × (q.reaper_interval ≡ pos 5)
    × let providers : List (Registered (World ℕ)) =
        record { name = "queue"; queue_provider = some p' } ∷ [] in
      let running = record no_pool { redis_workers = replicate 4 (scanning 0 0); reapers = 1 } in
      let filled = (register_all json percent q).0 in
      let signalled =
        listen_for_shutdown "interrupt" none (share_queue filled providers) (boot p' no_pool) in
      ((reports : List Report) × (s' : ℕ) × ((main_command json percent
            (λ q. accepts)
            flags
            5
            gauge
            rolls
            none
            none
            providers
            0).1
          ≡ blocked (share_queue filled providers) [] reports s'))
      × All (IsWired filled) (bench_jobs json percent 5)
      × (boot p' no_pool ≡ running)
      × (signalled.1 ≡ some (record filled { cancelled = true }))
      × (signalled.2 ≡ record running { shutdown = true })
harness_runs_example =
    harness_runs json percent (λ q. accepts) flags 5 gauge rolls none 0 10000 cached "adele" none
      no_service [] "interrupt" none (omega arith) refl
