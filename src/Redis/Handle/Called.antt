-- ===== src/Redis/Handle/Called.antt =====
-- What the call of a registered plain handler and the transitions of its verdict come to
-- (`handleRedisJob` of api/redis.go).
use adele_queue.Base.{
  ℕ, ◌+◌, ◌-◌, ◌*◌, ◌/◌, ◌≤◌, ◌<◌, ◌≡◌, ◌≢◌, refl, ◌∙◌, arith, false, some, none, ◌++◌, Option,
}
use adele_queue.Base.Int.{pos, mul64-pos}
use adele_queue.Base.Text.{Text, codes}
use adele_queue.Time.{Instant, Stamp, second, seconds-pos, add_duration, format, parse, is_unset}
use adele_queue.Handler.{Outcome, succeeded, failed, panicked, Handler}
use adele_queue.Job.{Job}
use adele_queue.Queue.{Queue}
use adele_queue.Registry.{lookup}
use adele_queue.Redis.Handle.{done, errored, verdict, call_entry, call_handler, retried_job}

verdict_failing : (o : Outcome) → o ≢ succeeded → (e : Text) × (verdict o ≡ errored e)
unfolding verdict
verdict_failing succeeded bad = absurd (bad refl)
verdict_failing (failed e) bad = (e, refl)
verdict_failing (panicked e) bad = (codes "handler panic: " ++ e, refl)

module _ {W : Type 0} (q : Queue W) (h : Handler W) (job : Job W) (p : Option Text) (w : W) where
  called :
      lookup job.name q.handlers ≡ some (record { plain = some h; ctx = none })
      → job.payload ≡ p
      → call_handler q job w ≡ (verdict (h p w).0, (h p w).1)
  unfolding call_handler call_entry
  called e hp = rw (e, hp) refl

  -- A registered plain handler that fails gives an error, and one that succeeds the job's
  -- completion.
  pub called_failing :
      lookup job.name q.handlers ≡ some (record { plain = some h; ctx = none })
      → job.payload ≡ p
      → (h p w).0 ≢ succeeded
      → (e : Text) × (call_handler q job w ≡ (errored e, (h p w).1))
  called_failing e hp bad =
      let v = verdict_failing (h p w).0 bad in (v.0, called e hp ∙ rw v.1 refl)

  pub called_succeeding :
      lookup job.name q.handlers ≡ some (record { plain = some h; ctx = none })
      → job.payload ≡ p
      → (h p w).0 ≡ succeeded
      → call_handler q job w ≡ (done, (h p w).1)
  unfolding verdict
  called_succeeding e hp good = called e hp ∙ rw good refl

set_at : (s : Stamp) (t : Instant) → parse s ≡ some t → is_unset s ≡ false
set_at s t e = ground (arith, e)

-- The next time of a job that is retried for the `c + 1`-th time.
pub retried_due :
    {W : Type 0} (clock : ℕ → Instant) (job : Job W) (n c : ℕ) (t : Instant)
    → parse job.retry_after ≡ some t
    → job.retry_counter ≡ pos c
    → c < n
    → n < 1000000000
    → (u : Instant) × (parse (retried_job clock job).retry_after ≡ some u)
      × (u ≤ clock 0 + (n + 1) * 5 * second)
unfolding retried_job add_duration format
retried_due clock job n c t at_t counter lt small =
    rw
      (
        set_at job.retry_after t at_t,
        counter,
        mul64-pos c 5 (omega arith),
        seconds-pos (c * 5) (omega arith),
      )
      ((clock 0 + c * 5 * 1000000000 - 0) / 1000000000 * 1000000000, refl, omega arith)
