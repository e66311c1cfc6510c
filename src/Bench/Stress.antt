-- ===== src/Bench/Stress.antt =====
-- internal/bench/benchjobs/stress.go: the mix of jobs, and the accounting of a run.
pub mod Accounting
use adele_queue.Base.{
  ℕ, ◌+◌, ◌*◌, ltb, leb, List, [], ◌∷◌, ◌++◌, Option, none, some, String, str_eq, if◌then◌else◌,
  ◌||◌,
}
use adele_queue.Base.Int.{ℤ, pos, leb_ℤ, add64}
use adele_queue.Base.Text.{Text, codes}
use adele_queue.Base.Decimal.{decimal}
use adele_queue.Time.{Duration}
use adele_queue.Job.{Job}
use adele_queue.Bench.{World}
use adele_queue.Bench.Payloads.{Json}
use adele_queue.Bench.Simple.{new_hello_job}
use adele_queue.Bench.Slow.{new_sleep_job, new_busy_loop_job}
use adele_queue.Bench.Fail.{new_always_error_job, new_panic_job}
use adele_queue.Bench.Registry.{Answer, sent, refused}

pub record StressConfig : Type 0 where
  pub count : ℤ
  pub concurrency : ℤ
  pub mode : String

pub record StressResult : Type 0 where
  pub dispatched : ℤ
  pub dispatch_errors : ℤ
  pub construct_errors : ℤ
  pub elapsed : Duration
  pub start_goroutines : ℕ
  pub peak_goroutines : ℕ

-- What `runtime` and the clock tell of a run: the number of goroutines at its start and at each
-- tick of the sampler, and the time that it took.
pub record Gauge : Type 0 where
  pub start : ℕ
  pub samples : List ℕ
  pub taken : Duration

-- `&StressResult{StartGoroutines: n}`
abbrev pub fresh_result : ℕ → StressResult
fresh_result n = record {
  dispatched = pos 0;
  dispatch_errors = pos 0;
  construct_errors = pos 0;
  elapsed = pos 0;
  start_goroutines = n;
  peak_goroutines = 0;
}

-- A tick of the sampler. No other goroutine writes the peak, so that its first exchange succeeds.
unfoldable pub sample : ℕ → ℕ → ℕ
sample peak n = if leb n peak then peak else n

unfoldable pub sample_all : ℕ → List ℕ → ℕ
unfolding sample
sample_all peak [] = peak
sample_all peak (n ∷ ns) = sample_all (sample peak n) ns

-- How long the sampler runs on after the last dispatch.
unfoldable pub drain_window : String → Duration
drain_window mode =
    if str_eq mode "fail" || str_eq mode "mixed" then pos 7000000000 else pos 100000000

-- What the two calls of `rand.IntN` give for one job.
pub record Roll : Type 0 where
  pub kind : ℕ
  pub millis : ℕ

-- `cfg` after the defaults.
unfoldable pub stress_mode : StressConfig → String
stress_mode cfg = if str_eq cfg.mode "" then "hello" else cfg.mode

-- The counter that a dispatch increments.
unfoldable pub count_answer : {Q : Type 0} → Answer → Q → StressResult → Q × StressResult
count_answer (refused e) q r = (q, record r { dispatch_errors = add64 r.dispatch_errors (pos 1) })
count_answer (sent id) q r = (q, record r { dispatched = add64 r.dispatched (pos 1) })

module _ {F : Type 0} (json : Json F) where
  numbered : String → ℤ → Text
  numbered prefix i = codes prefix ++ decimal i

  -- `none` is either error: of the constructor, or of a mode that is not known.
  unfoldable pub stress_job_for : String → ℤ → Roll → Option (Job (World F))
  unfolding numbered
  stress_job_for mode i roll =
      if str_eq mode "hello"
      then new_hello_job json (numbered "stress-" i)
      else if str_eq mode "fail"
      then new_always_error_job json (numbered "stress-fail-" i)
      else if str_eq mode "mixed"
      then (if ltb roll.kind 60
          then new_hello_job json (numbered "stress-hello-" i)
          else if ltb roll.kind 80
          then new_sleep_job json (pos ((10 + roll.millis) * 1000000))
          else if ltb roll.kind 90
          then new_always_error_job json (numbered "stress-err-" i)
          else if ltb roll.kind 95
          then new_panic_job json (numbered "stress-panic-" i)
          else new_busy_loop_job json (pos 50000))
      else none

  module _ {Q : Type 0} (dispatch : Job (World F) → Q → Answer × Q) where
    -- One goroutine: the job, its dispatch, and the counter that it increments.
    unfoldable pub attempt : Option (Job (World F)) → Q → StressResult → Q × StressResult
    unfolding count_answer
    attempt none q r = (q, record r { construct_errors = add64 r.construct_errors (pos 1) })
    attempt (some job) q r = let (a, q') = dispatch job q in count_answer a q' r

    unfoldable pub stress_job : String → ℤ → Roll → Q → StressResult → Q × StressResult
    unfolding stress_job_for attempt
    stress_job mode i roll q r = attempt (stress_job_for mode i roll) q r

    -- The goroutines in the order in which their dispatches return, each with its index.
    unfoldable pub stress_jobs : String → List (ℤ × Roll) → Q → StressResult → Q × StressResult
    unfolding stress_job
    stress_jobs mode [] q r = (q, r)
    stress_jobs mode ((i, roll) ∷ order) q r =
        let (q', r') = stress_job mode i roll q r in stress_jobs mode order q' r'

    -- `none` is the error of a count that is not positive; otherwise the result of a run. The
    -- sampler takes its samples until the window for retries is over.
    unfoldable pub stress : StressConfig → Gauge → List (ℤ × Roll) → Q → Option (Q × StressResult)
    unfolding stress_jobs stress_mode sample_all
    stress cfg gauge order q =
        if leb_ℤ cfg.count (pos 0)
        then none
        else (let (q', r) = stress_jobs (stress_mode cfg) order q (fresh_result gauge.start) in
            some (
              q',
              record r {
                elapsed = gauge.taken;
                peak_goroutines = sample_all gauge.start gauge.samples;
              },
            ))
