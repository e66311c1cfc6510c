-- ===== src/Bench/Registry/Wired.antt =====
-- internal/bench/benchjobs/registry.go, `RegisterAll`: the handlers of the jobs that the
-- constructors build.
use mathlib.Core.Path.{subst}
use mathlib.Core.Option.{some-injective}
use adele_queue.Base.{◌≡◌, refl, [], Option, none, some, All, ap, sym, String}
use adele_queue.Base.Text.{codes, text_eq}
use adele_queue.Time.{Instant}
use adele_queue.Handler.{Handler}
use adele_queue.Job.{Job, zero_job}
use adele_queue.Queue.{Queue}
use adele_queue.Registry.{lookup, register_handler}
use adele_queue.Bench.{World, Codec, new_job, new_retried_job}
use adele_queue.Bench.Payloads.{Json, Float}
use adele_queue.Bench.Built.{IsNamed, new_job-IsNamed, new_retried_job-IsNamed}
use adele_queue.Bench.Simple.{
  hello_handler, sum_handler, counter_handler, new_hello_job, new_sum_job, new_counter_job,
}
use adele_queue.Bench.Slow.{
  sleep_handler, busy_loop_handler, fanout_handler, new_sleep_job, new_busy_loop_job,
  new_fanout_job,
}
use adele_queue.Bench.Fail.{
  always_error_handler, panic_handler, nil_deref_handler, new_always_error_job, new_panic_job,
  new_nil_deref_job,
}
use adele_queue.Bench.Flaky.{
  fail_then_succeed_handler, intermittent_handler, exhaust_retries_handler,
  new_fail_then_succeed_job, new_intermittent_job, new_exhaust_retries_job,
}
use adele_queue.Bench.Edge.{
  large_payload_handler, unicode_handler, nested_handler, new_large_payload_job, new_unicode_job,
  new_nested_payload_job,
}
use adele_queue.Bench.Registry.{register_each, register_all, bench_handlers, bench_jobs}

-- A job that the entry built finds its own handler under its name.
abbrev pub IsWired : {W : Type 0} → Queue W → String × Option (Job W) → Type 0
IsWired {W} q entry =
    (job : Job W)
    → entry.1 ≡ some job
    → lookup job.name q.handlers ≡ some (record { plain = job.handler; ctx = none })

infixr 30 ◌◁◌
◌◁◌ : {A B : Type 0} → A → B → A × B
h ◁ hs = (h, hs)

-- The job that `NewNilDerefJob` returns.
abbrev nil_job : {F : Type 0} → Job (World F)
nil_job = record zero_job {
  name = "fail-nil-deref";
  payload = some (codes "{}");
  handler = some nil_deref_handler;
  queue = codes "job";
}

module _ {F P : Type 0} (codec : Codec P) (name : String) (h : Handler (World F)) (p : P)
    (q : Queue (World F)) where
  named-IsWired :
      (job : Job (World F))
      → lookup name q.handlers ≡ some (record { plain = some h; ctx = none })
      → IsNamed name h job
      → lookup job.name q.handlers ≡ some (record { plain = job.handler; ctx = none })
  named-IsWired job found (n, e) = rw (n, e) found

  new_job-IsWired :
      lookup name q.handlers ≡ some (record { plain = some h; ctx = none })
      → IsWired q (name, new_job codec name h p)
  new_job-IsWired found job built =
      named-IsWired job found (new_job-IsNamed codec h name p job built)

  new_retried_job-IsWired :
      lookup name q.handlers ≡ some (record { plain = some h; ctx = none })
      → IsWired q (name, new_retried_job codec name h p)
  new_retried_job-IsWired found job built =
      named-IsWired job found (new_retried_job-IsNamed codec h name p job built)

module _ {F : Type 0} (json : Json F) (float : Float F) (q : Queue (World F)) where
  -- The queue after `RegisterAll` on an empty registry.
  abbrev fresh : Queue (World F)
  fresh = (register_all json float (record q { handlers = [] })).0

  nil_deref-IsWired : IsWired fresh ("", new_nil_deref_job)
  unfolding register_all register_each bench_handlers register_handler lookup new_nil_deref_job
  nil_deref-IsWired job built =
      subst (λ j. lookup j.name fresh.handlers ≡ some (record { plain = j.handler; ctx = none }))
        (some-injective nil_job job built) refl

  All-IsWired :
      (now : Instant)
      → ((register_all json float (record q { handlers = [] })).1 ≡ [])
        × All (IsWired fresh) (bench_jobs json float now)
  unfolding register_all register_each bench_handlers bench_jobs register_handler lookup
      new_hello_job new_sum_job new_counter_job new_sleep_job new_busy_loop_job new_fanout_job
      new_always_error_job new_panic_job new_nil_deref_job new_fail_then_succeed_job
      new_intermittent_job new_exhaust_retries_job new_large_payload_job new_unicode_job
      new_nested_payload_job text_eq
  All-IsWired now = (
    refl,
    new_job-IsWired json.hello "hello-world" (hello_handler json) _ fresh refl
        ◁ new_job-IsWired json.sum "simple-sum" (sum_handler json) _ fresh refl
        ◁ new_job-IsWired json.counter "simple-counter" (counter_handler json) _ fresh refl
        ◁ new_job-IsWired json.sleep "slow-sleep" (sleep_handler json) _ fresh refl
        ◁ new_job-IsWired json.busy_loop "slow-busy-loop" (busy_loop_handler json) _ fresh refl
        ◁ new_job-IsWired json.fanout "slow-fanout" (fanout_handler json) _ fresh refl
        ◁ new_retried_job-IsWired json.always_error "fail-error" (always_error_handler json) _ fresh
            refl
        ◁ new_job-IsWired json.panic "fail-panic" (panic_handler json) _ fresh refl
        ◁ nil_deref-IsWired
        ◁ new_retried_job-IsWired json.fail_then_succeed "flaky-fail-then-succeed"
            (fail_then_succeed_handler json) _ fresh refl
        ◁ new_retried_job-IsWired json.intermittent "flaky-intermittent"
            (intermittent_handler json float) _ fresh refl
        ◁ new_retried_job-IsWired json.exhaust_retries "flaky-exhaust-retries"
            (exhaust_retries_handler json) _ fresh refl
        ◁ new_job-IsWired json.large "payload-large" (large_payload_handler json) _ fresh refl
        ◁ new_job-IsWired json.unicode "payload-unicode" (unicode_handler json) _ fresh refl
        ◁ new_job-IsWired json.nested "payload-nested" (nested_handler json) _ fresh refl
        ◁ tt,
  )

  -- On a queue without handlers `RegisterAll` reports no error, and each job that a constructor of
  -- `SeedAll` builds then finds, under its name, the handler that it carries itself.
  pub register_all-IsWired :
      (now : Instant)
      → q.handlers ≡ []
      → ((register_all json float q).1 ≡ [])
        × All (IsWired (register_all json float q).0) (bench_jobs json float now)
  register_all-IsWired now empty =
      subst
        (λ r.
          ((register_all json float r).1 ≡ [])
          × All (IsWired (register_all json float r).0) (bench_jobs json float now))
        (ap (λ hs. record q { handlers = hs }) (sym empty)) (All-IsWired now)
