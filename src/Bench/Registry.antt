-- ===== src/Bench/Registry.antt =====
-- internal/bench/benchjobs/registry.go: the registration of every handler, and the dispatch of one
-- job of each kind.
pub mod Wired
pub mod Seeded
use adele_queue.Base.{List, [], ◌∷◌, Option, none, some, String}
use adele_queue.Base.Int.{pos}
use adele_queue.Base.Text.{Text, codes}
use adele_queue.Time.{Instant}
use adele_queue.Handler.{Handler}
use adele_queue.Job.{Job}
use adele_queue.Queue.{Queue}
use adele_queue.Registry.{RegisterError, register_handler}
use adele_queue.Bench.{World}
use adele_queue.Bench.Payloads.{Json, Float}
use adele_queue.Bench.Simple.{
  hello_handler, sum_handler, counter_handler, new_hello_job, new_sum_job, new_counter_job,
}
use adele_queue.Bench.Slow.{
  sleep_handler, busy_loop_handler, fanout_handler, new_sleep_job, new_busy_loop_job,
  new_fanout_job,
}
use adele_queue.Bench.Fail.{
  always_error_handler, panic_handler, nil_deref_handler, new_always_error_job, new_panic_job,
  new_nil_deref_job,
}
use adele_queue.Bench.Flaky.{
  fail_then_succeed_handler, intermittent_handler, exhaust_retries_handler,
  new_fail_then_succeed_job, new_intermittent_job, new_exhaust_retries_job,
}
use adele_queue.Bench.Edge.{
  large_payload_handler, unicode_handler, nested_handler, new_large_payload_job, new_unicode_job,
  new_nested_payload_job,
}

-- The loop of `RegisterAll` over the names and the handlers.
unfoldable pub register_each :
    {W : Type 0} → List (String × Handler W) → Queue W → Queue W × List (String × RegisterError)
register_each [] q = (q, [])
register_each ((name, fn) ∷ hs) q =
    let (q', e) = register_handler q name (some fn) in
    let (q'', es) = register_each hs q' in (q'', elim e [ none ↦ es | some r ↦ (name, r) ∷ es ])

-- What a `QueueDispatcher` answers: the id, or the text of an error.
pub data Answer : Type 0 where
  sent : Text → Answer
  refused : Text → Answer

-- The two ways in which one entry of `seedAll` ends with an error.
pub data SeedError : Type 0 where
  construct_error : String → SeedError
  seed_refused : String → Text → SeedError

-- The loop of `seedAll`. A constructor returns a job or an error. The dispatcher acts on a state of
-- its own.
unfoldable pub seed_each :
    {W Q : Type 0}
    → (Job W → Q → Answer × Q)
    → List (String × Option (Job W))
    → Q
    → List SeedError × Q
seed_each dispatch [] q = ([], q)
seed_each dispatch ((name, none) ∷ entries) q =
    let (es, q') = seed_each dispatch entries q in (construct_error name ∷ es, q')
seed_each dispatch ((name, some job) ∷ entries) q =
    let (a, q') = dispatch job q in
    let (es, q'') = seed_each dispatch entries q' in
    (elim a [ sent id ↦ es | refused e ↦ seed_refused name e ∷ es ], q'')

module _ {F : Type 0} (json : Json F) (float : Float F) where
  unfoldable pub bench_handlers : List (String × Handler (World F))
  bench_handlers =
      ("hello-world", hello_handler json)
      ∷ ("simple-sum", sum_handler json)
      ∷ ("simple-counter", counter_handler json)
      ∷ ("slow-sleep", sleep_handler json)
      ∷ ("slow-busy-loop", busy_loop_handler json)
      ∷ ("slow-fanout", fanout_handler json)
      ∷ ("fail-error", always_error_handler json)
      ∷ ("fail-panic", panic_handler json)
      ∷ ("fail-nil-deref", nil_deref_handler)
      ∷ ("flaky-fail-then-succeed", fail_then_succeed_handler json)
      ∷ ("flaky-intermittent", intermittent_handler json float)
      ∷ ("flaky-exhaust-retries", exhaust_retries_handler json)
      ∷ ("payload-large", large_payload_handler json)
      ∷ ("payload-unicode", unicode_handler json)
      ∷ ("payload-nested", nested_handler json)
      ∷ []

  unfoldable pub register_all : Queue (World F) → Queue (World F) × List (String × RegisterError)
  register_all q = register_each bench_handlers q

  -- The clock is read by the constructor of the nested payload alone.
  unfoldable pub bench_jobs : Instant → List (String × Option (Job (World F)))
  bench_jobs now =
      ("HelloJob", new_hello_job json (codes "world"))
      ∷ ("SumJob", new_sum_job json (pos 3) (pos 4))
      ∷ ("CounterJob", new_counter_job json (pos 10))
      ∷ ("SleepJob", new_sleep_job json (pos 500000000))
      ∷ ("BusyLoopJob", new_busy_loop_job json (pos 1000000))
      ∷ ("FanoutJob", new_fanout_job json (pos 5) (pos 100))
      ∷ ("AlwaysErrorJob", new_always_error_job json (codes "expected failure"))
      ∷ ("PanicJob", new_panic_job json (codes "expected panic"))
      ∷ ("NilDerefJob", new_nil_deref_job)
      ∷ ("FailThenSucceedJob", new_fail_then_succeed_job json (codes "flaky-1") (pos 2))
      ∷ ("IntermittentJob", new_intermittent_job json float (codes "flaky-2") float.half_float)
      ∷ ("ExhaustRetriesJob", new_exhaust_retries_job json (codes "flaky-3"))
      ∷ ("LargePayloadJob", new_large_payload_job json 1048576)
      ∷ ("UnicodeJob", new_unicode_job json)
      ∷ ("NestedPayloadJob", new_nested_payload_job json now)
      ∷ []

  unfoldable pub seed_all :
      {Q : Type 0} → (Job (World F) → Q → Answer × Q) → Instant → Q → List SeedError × Q
  seed_all dispatch now q = seed_each dispatch (bench_jobs now) q
