-- ===== src/Memory/Attempts/Runs.antt =====
-- One run of a job on the memory backend (api/memory.go, `addFailedJob`).
use adele_queue.Base.{
  Bool-cases, inl, inr, ℕ, suc, ◌≤◌, ◌<◌, ◌≡◌, ◌≢◌, refl, arith, true, [], ◌∷◌, ◌++◌, none, some,
}
use adele_queue.Base.Int.{pos, add64-pos_one}
use adele_queue.Base.Text.{Text, codes}
use adele_queue.Time.{Instant}
use adele_queue.Handler.{Bytes, Outcome, succeeded, failed, panicked, Handler}
use adele_queue.Job.{Job}
use adele_queue.Database.{Database}
use adele_queue.Memory.{Mem, next_attempt, add_failed_job, add_completed_job, wakes, retry_delay}
use adele_queue.Memory.Worker.{invoke, record_outcome, run_handler, runnable, release, process}
use adele_queue.Memory.Attempts.{IsRetried}

-- What a failed run leaves where a retry is due: the payload `p` as it was, and the world `w`.
pub record IsAgain {W D : Type 0} (h : Handler W) (n c : ℕ) (p : Bytes) (w : W) (m : Mem W D)
    : Type 0 where
  pub at : Instant
  pub again : Job W
  pub asleep : m.sleepers ≡ (at, again) ∷ []
  pub payload : again.payload ≡ p
  pub world : m.world ≡ w
  pub retried : IsRetried h n c again (record m { sleepers = [] })

module _ {W D : Type 0} {h : Handler W} {n c : ℕ} where
  -- What the run changes besides leaves the hypotheses alone.
  keep :
      (job : Job W) (m : Mem W D) {e : Text} {w : W}
      → IsRetried h n c job m
      → IsRetried h n c (record job { exception = e }) (record m { world = w })
  keep job m d = record {
    inline = d.inline;
    entry = d.entry;
    retries = d.retries;
    counter = d.counter;
    limit = d.limit;
    alone = d.alone;
  }

  keep_world :
      (job : Job W) (m : Mem W D) {w : W}
      → IsRetried h n c job m
      → IsRetried h n c job (record m { world = w })
  keep_world job m d = record {
    inline = d.inline;
    entry = d.entry;
    retries = d.retries;
    counter = d.counter;
    limit = d.limit;
    alone = d.alone;
  }

  release-IsAgain :
      {p : Bytes} {w : W} {m : Mem W D} → IsAgain h n c p w m → IsAgain h n c p w (release m)
  unfolding release
  release-IsAgain a = record {
    at = a.at;
    again = a.again;
    asleep = a.asleep;
    payload = a.payload;
    world = a.world;
    retried = record {
      inline = a.retried.inline;
      entry = a.retried.entry;
      retries = a.retried.retries;
      counter = a.retried.counter;
      limit = a.retried.limit;
      alone = refl;
    };
  }

module _ {W D : Type 0} (h : Handler W) (n c : ℕ) (job : Job W) (m : Mem W D) where
  invoke_inline : (w : W) → IsRetried h n c job m → invoke m.queue job w ≡ h job.payload w
  unfolding invoke
  invoke_inline w d = elim d.entry [ inl e ↦ rw (e, d.inline) | inr e ↦ rw e ]

  runnable_inline : IsRetried h n c job m → runnable m.queue job ≡ true
  unfolding runnable
  runnable_inline d = rw (d.inline)

  attempt_due :
      c < n
      → c < 9223372036854775807
      → IsRetried h n c job m
      → next_attempt m.queue.max_attempts job ≡ some (record job { retry_counter = pos (suc c) })
  unfolding next_attempt
  attempt_due lt small d = rw (d.retries, d.counter, d.limit, add64-pos_one c small) (ground arith)

  no_attempt_due : n ≤ c → IsRetried h n c job m → next_attempt m.queue.max_attempts job ≡ none
  unfolding next_attempt
  no_attempt_due le d = rw (d.retries, d.counter, d.limit) (ground arith)

module _ {W D : Type 0} (database : Database D) (h : Handler W) (n c : ℕ) (now : Instant) where
  failed-IsAgain :
      (job : Job W) (m : Mem W D)
      → c < n
      → c < 9223372036854775807
      → IsRetried h n c job m
      → IsAgain h n (suc c) job.payload m.world (add_failed_job database now job m)
  unfolding add_failed_job
  failed-IsAgain job m lt small d = rw (attempt_due h n c job m lt small d) (record {
    at = wakes now (retry_delay job);
    again = record job { retry_counter = pos (suc c) };
    asleep = rw d.alone;
    payload = refl;
    world = refl;
    retried = record {
      inline = d.inline;
      entry = d.entry;
      retries = d.retries;
      counter = refl;
      limit = d.limit;
      alone = refl;
    };
  })

  failed_finally :
      (job : Job W) (m : Mem W D)
      → n ≤ c
      → IsRetried h n c job m
      → (add_failed_job database now job m).sleepers ≡ []
  unfolding add_failed_job
  failed_finally job m le d = rw (no_attempt_due h n c job m le d) (ground arith)

  outcome-IsAgain :
      (o : Outcome) (job : Job W) (m : Mem W D)
      → o ≢ succeeded
      → c < n
      → c < 9223372036854775807
      → IsRetried h n c job m
      → IsAgain h n (suc c) job.payload m.world (record_outcome database now job o m)
  unfolding record_outcome
  outcome-IsAgain succeeded job m fails lt small d = absurd (fails refl)
  outcome-IsAgain (failed e) job m fails lt small d =
      failed-IsAgain (record job { exception = e }) m lt small (keep job m d)
  outcome-IsAgain (panicked e) job m fails lt small d =
      failed-IsAgain (record job { exception = codes "panic: " ++ e }) m lt small (keep job m d)

  outcome_finally :
      (o : Outcome) (job : Job W) (m : Mem W D)
      → o ≢ succeeded
      → n ≤ c
      → IsRetried h n c job m
      → (record_outcome database now job o m).sleepers ≡ []
  unfolding record_outcome
  outcome_finally succeeded job m fails le d = absurd (fails refl)
  outcome_finally (failed e) job m fails le d =
      failed_finally (record job { exception = e }) m le (keep job m d)
  outcome_finally (panicked e) job m fails le d =
      failed_finally (record job { exception = codes "panic: " ++ e }) m le (keep job m d)

  run_handler_inline :
      (job : Job W) (m : Mem W D)
      → IsRetried h n c job m
      → run_handler database now job m
        ≡ record_outcome database now job
            (h job.payload m.world).0
            (record m { world = (h job.payload m.world).1 })
  unfolding run_handler
  run_handler_inline job m d = rw (invoke_inline h n c job m m.world d)

  process_runs :
      (job : Job W) (m : Mem W D)
      → IsRetried h n c job m
      → process database now job m
        ≡ release (
            record_outcome database now job
              (h job.payload m.world).0
              (record m { world = (h job.payload m.world).1 }))
  unfolding process
  process_runs job m d = rw (runnable_inline h n c job m d) (rw (run_handler_inline job m d))

  pub process-IsAgain :
      (job : Job W) (m : Mem W D)
      → (h job.payload m.world).0 ≢ succeeded
      → c < n
      → c < 9223372036854775807
      → IsRetried h n c job m
      → IsAgain h n (suc c) job.payload (h job.payload m.world).1 (process database now job m)
  process-IsAgain job m fails lt small d = rw (process_runs job m d) (
      release-IsAgain (
        outcome-IsAgain (h job.payload m.world).0 job
          (record m { world = (h job.payload m.world).1 }) fails lt small (keep_world job m d)))

  pub process_finally :
      (job : Job W) (m : Mem W D)
      → (h job.payload m.world).0 ≢ succeeded
      → n ≤ c
      → IsRetried h n c job m
      → (process database now job m).sleepers ≡ []
  unfolding release
  process_finally job m fails le d = rw (process_runs job m d) (
      outcome_finally (h job.payload m.world).0 job (record m { world = (h job.payload m.world).1 })
        fails le (keep_world job m d))

  completed_finally :
      (job : Job W) (m : Mem W D)
      → IsRetried h n c job m
      → ((add_completed_job database job m).sleepers ≡ [])
        × ((add_completed_job database job m).world ≡ m.world)
  unfolding add_completed_job
  completed_finally job m d = elim (Bool-cases m.queue.db) [
    | inl e ↦ rw e (d.alone, refl)
    | inr e ↦ rw e (d.alone, refl)
  ]

  outcome_completed :
      (o : Outcome) (job : Job W) (m : Mem W D)
      → o ≡ succeeded
      → IsRetried h n c job m
      → ((record_outcome database now job o m).sleepers ≡ [])
        × ((record_outcome database now job o m).world ≡ m.world)
  unfolding record_outcome
  outcome_completed o job m e d = rw e (completed_finally job m d)

  pub process_completed :
      (job : Job W) (m : Mem W D)
      → (h job.payload m.world).0 ≡ succeeded
      → IsRetried h n c job m
      → ((process database now job m).sleepers ≡ [])
        × ((process database now job m).world ≡ (h job.payload m.world).1)
  unfolding release
  process_completed job m e d = rw (process_runs job m d) (
      outcome_completed (h job.payload m.world).0 job
        (record m { world = (h job.payload m.world).1 }) e (keep_world job m d))
