-- ===== src/Bench/Stress/Accounting.antt =====
-- internal/bench/benchjobs/stress.go, `Stress`: its counters.
use mathlib.Core.Path.{subst}
use adele_queue.Base.{
  ℕ, suc, ◌+◌, ◌<◌, ◌≤◌, ◌≡◌, refl, arith, List, [], ◌∷◌, Option, none, some, String, length, any,
  All, true, ◌==◌,
}
use adele_queue.Base.Int.{ℤ, pos, add64, add64-pos_one}
use adele_queue.Job.{Job}
use adele_queue.Bench.{World}
use adele_queue.Bench.Payloads.{Json}
use adele_queue.Bench.Registry.{Answer, sent, refused}
use adele_queue.Bench.Stress.{
  StressConfig, StressResult, Gauge, fresh_result, sample, sample_all, Roll, stress_mode,
  stress_job_for, count_answer, attempt, stress_job, stress_jobs, stress,
}

-- The three counters, and their sum.
pub record IsSum (n : ℕ) (r : StressResult) : Type 0 where
  pub sent_jobs : ℕ
  pub refused_jobs : ℕ
  pub unbuilt_jobs : ℕ
  pub dispatched : r.dispatched ≡ pos sent_jobs
  pub dispatch_errors : r.dispatch_errors ≡ pos refused_jobs
  pub construct_errors : r.construct_errors ≡ pos unbuilt_jobs
  pub sum : sent_jobs + refused_jobs + unbuilt_jobs ≡ n

one_more : (a : ℕ) {z : ℤ} → z ≡ pos a → a < 9223372036854775807 → add64 z (pos 1) ≡ pos (suc a)
one_more a e small = rw e (add64-pos_one a small)

module _ {n : ℕ} {r : StressResult} where
  one_sent :
      IsSum n r
      → n < 9223372036854775807
      → IsSum (suc n) (record r { dispatched = add64 r.dispatched (pos 1) })
  one_sent s small = record {
    sent_jobs = suc s.sent_jobs;
    refused_jobs = s.refused_jobs;
    unbuilt_jobs = s.unbuilt_jobs;
    dispatched = one_more s.sent_jobs s.dispatched (omega (arith, s.sum));
    dispatch_errors = s.dispatch_errors;
    construct_errors = s.construct_errors;
    sum = omega (arith, s.sum);
  }

  one_refused :
      IsSum n r
      → n < 9223372036854775807
      → IsSum (suc n) (record r { dispatch_errors = add64 r.dispatch_errors (pos 1) })
  one_refused s small = record {
    sent_jobs = s.sent_jobs;
    refused_jobs = suc s.refused_jobs;
    unbuilt_jobs = s.unbuilt_jobs;
    dispatched = s.dispatched;
    dispatch_errors = one_more s.refused_jobs s.dispatch_errors (omega (arith, s.sum));
    construct_errors = s.construct_errors;
    sum = omega (arith, s.sum);
  }

  one_unbuilt :
      IsSum n r
      → n < 9223372036854775807
      → IsSum (suc n) (record r { construct_errors = add64 r.construct_errors (pos 1) })
  one_unbuilt s small = record {
    sent_jobs = s.sent_jobs;
    refused_jobs = s.refused_jobs;
    unbuilt_jobs = suc s.unbuilt_jobs;
    dispatched = s.dispatched;
    dispatch_errors = s.dispatch_errors;
    construct_errors = one_more s.unbuilt_jobs s.construct_errors (omega (arith, s.sum));
    sum = omega (arith, s.sum);
  }

module _ {F Q : Type 0} (json : Json F) (dispatch : Job (World F) → Q → Answer × Q)
    (mode : String) where
  count_answer-IsSum :
      (a : Answer) (q : Q) (n : ℕ) (r : StressResult)
      → IsSum n r
      → n < 9223372036854775807
      → IsSum (suc n) (count_answer a q r).1
  unfolding count_answer
  count_answer-IsSum (sent id) q n r s small = one_sent s small
  count_answer-IsSum (refused e) q n r s small = one_refused s small

  attempt-IsSum :
      (o : Option (Job (World F))) (q : Q) (n : ℕ) (r : StressResult)
      → IsSum n r
      → n < 9223372036854775807
      → IsSum (suc n) (attempt json dispatch o q r).1
  unfolding attempt
  attempt-IsSum none q n r s small = one_unbuilt s small
  attempt-IsSum (some job) q n r s small =
      count_answer-IsSum (dispatch job q).0 (dispatch job q).1 n r s small

  stress_jobs-IsSum :
      (order : List (ℤ × Roll)) (q : Q) (n : ℕ) (r : StressResult)
      → IsSum n r
      → n + length order < 9223372036854775808
      → IsSum (n + length order) (stress_jobs json dispatch mode order q r).1
  unfolding stress_jobs stress_job
  stress_jobs-IsSum [] q n r s small = subst (λ k. IsSum k r) (omega arith) s
  stress_jobs-IsSum ((i, roll) ∷ order) q n r s small =
      let d = stress_job json dispatch mode i roll q r in
      subst (λ k. IsSum k (stress_jobs json dispatch mode order d.0 d.1).1) (omega arith)
        (stress_jobs-IsSum order d.0 (suc n) d.1
          (attempt-IsSum (stress_job_for json mode i roll) q n r s (omega arith)) (omega arith))

-- The peak: the number at the start or one of the samples, and none of them is greater.
pub record IsPeak (gauge : Gauge) (peak : ℕ) : Type 0 where
  pub reached : any (λ n. n == peak) (gauge.start ∷ gauge.samples) ≡ true
  pub greatest : All (λ n. n ≤ peak) (gauge.start ∷ gauge.samples)

sample_all-greatest :
    (p : ℕ) (ns : List ℕ) → (p ≤ sample_all p ns) × All (λ n. n ≤ sample_all p ns) ns
unfolding sample_all sample
sample_all-greatest p [] = (omega arith, tt)
sample_all-greatest p (n ∷ ns) =
    let (here, rest) = sample_all-greatest (sample p n) ns in
    (ground (arith, here), (ground (arith, here), rest))

sample_all-reached : (p : ℕ) (ns : List ℕ) → any (λ n. n == sample_all p ns) (p ∷ ns) ≡ true
unfolding sample_all sample
sample_all-reached p [] = ground arith
sample_all-reached p (n ∷ ns) = ground (arith, sample_all-reached (sample p n) ns)

module _ {F Q : Type 0} (json : Json F) (dispatch : Job (World F) → Q → Answer × Q) where
  -- A run of a positive `Count` returns, whatever the constructors and the dispatcher answer, and
  -- in whatever order the dispatches return: its three counters, none of which wraps, add up to the
  -- count, and its peak of goroutines is the greatest of the number at the start and the samples.
  pub stress-IsSum :
      (cfg : StressConfig) (gauge : Gauge) (order : List (ℤ × Roll)) (q : Q) (n : ℕ)
      → cfg.count ≡ pos n
      → 0 < n
      → n < 9223372036854775808
      → length order ≡ n
      → (end : Q × StressResult) × (stress json dispatch cfg gauge order q ≡ some end)
        × IsSum n end.1
        × IsPeak gauge end.1.peak_goroutines
  unfolding stress
  stress-IsSum cfg gauge order q n count positive small all =
      let done = stress_jobs json dispatch (stress_mode cfg) order q (fresh_result gauge.start) in
      let counters =
        stress_jobs-IsSum json dispatch (stress_mode cfg) order q 0 (fresh_result gauge.start)
          (record {
            sent_jobs = 0;
            refused_jobs = 0;
            unbuilt_jobs = 0;
            dispatched = refl;
            dispatch_errors = refl;
            construct_errors = refl;
            sum = refl;
          })
          (omega (arith, all)) in
      (
        (
          done.0,
          record done.1 {
            elapsed = gauge.taken;
            peak_goroutines = sample_all gauge.start gauge.samples;
          },
        ),
        rw count (ground arith),
        record {
          sent_jobs = counters.sent_jobs;
          refused_jobs = counters.refused_jobs;
          unbuilt_jobs = counters.unbuilt_jobs;
          dispatched = counters.dispatched;
          dispatch_errors = counters.dispatch_errors;
          construct_errors = counters.construct_errors;
          sum = omega (arith, all, counters.sum);
        },
        record {
          reached = sample_all-reached gauge.start gauge.samples;
          greatest = sample_all-greatest gauge.start gauge.samples;
        },
      )
