-- ===== src/Bench/Life.antt =====
-- internal/bench/benchjobs: the runs of the retried jobs on the memory backend (api/memory.go,
-- `addFailedJob`, driven by the worker's loop of api/queue.go).
use mathlib.Core.Option.{none-ne-some}
use adele_queue.Base.{
  ◌∷◌, ℕ, suc, ◌≤◌, ◌<◌, ◌≡◌, ◌≢◌, ◌⊎◌, refl, ap, ◌∙◌, arith, [], none, some, String,
}
use adele_queue.Base.Int.{pos}
use adele_queue.Base.Text.{Text, text_eq}
use adele_queue.Time.{Instant}
use adele_queue.Handler.{Bytes, Outcome, succeeded, Handler}
use adele_queue.Job.{Job}
use adele_queue.Database.{Database}
use adele_queue.Registry.{lookup}
use adele_queue.Memory.{Mem}
use adele_queue.Memory.Attempts.{life, NeverSucceeds, IsRetried}
use adele_queue.Memory.Attempts.Bound.{life_of_never_succeeding}
use adele_queue.Memory.Attempts.Until.{life_of_succeeding_after}
use adele_queue.Bench.{
  World, Codec, Decoded, decoded, invalid, raw_of, with_payload, new_retried_job,
}
use adele_queue.Bench.Built.{IsNew, new_retried_job-IsNew}
use adele_queue.Bench.Payloads.{FailThenSucceedPayload, AlwaysErrorPayload, Json}
use adele_queue.Bench.Fail.{run_always_error, always_error_handler, new_always_error_job}
use adele_queue.Bench.Flaky.{fail_then_succeed_handler, new_fail_then_succeed_job}
use adele_queue.Bench.Attempts.{fail_then_succeed_handler_lem, attempts_after}

-- A queue of the memory backend on which nothing sleeps, with `MaxAttempts` and, at most, the
-- handler `h` registered for the name.
pub record IsIdle {F D : Type 0} (h : Handler (World F)) (n : ℕ) (name : String)
    (m : Mem (World F) D) : Type 0 where
  pub entry :
      (lookup name m.queue.handlers ≡ none)
      ⊎ (lookup name m.queue.handlers ≡ some (record { plain = some h; ctx = none }))
  pub limit : m.queue.max_attempts ≡ pos n
  pub alone : m.sleepers ≡ []

module _ {F P : Type 0} (codec : Codec P) (h : Handler (World F)) (name : String) (p : P) where
  IsNew-IsRetried :
      {D : Type 0} (n : ℕ) (job : Job (World F)) (m : Mem (World F) D)
      → IsNew codec h name p job
      → IsIdle h n name m
      → IsRetried h n 0 job m
  IsNew-IsRetried n job m j r = record {
    inline = j.inline;
    entry = rw j.named r.entry;
    retries = j.retries;
    counter = j.counter;
    limit = r.limit;
    alone = r.alone;
  }

-- The constructor refuses an empty id; for any other it is `new_retried_job`.
new_fail_then_succeed_job-built :
    {F : Type 0} (json : Json F) (id : Text) (k : ℕ) (job : Job (World F))
    → new_fail_then_succeed_job json id (pos k) ≡ some job
    → (id ≢ [])
      × (new_retried_job json.fail_then_succeed "flaky-fail-then-succeed"
            (fail_then_succeed_handler json)
            (record { id = id; fail_times = pos k })
          ≡ some job)
unfolding new_fail_then_succeed_job text_eq
new_fail_then_succeed_job-built json [] k job built = absurd (none-ne-some job built)
new_fail_then_succeed_job-built json (c ∷ id) k job built = (ground arith, built)

module _ {F P : Type 0} (codec : Codec P) (name : String)
    (run : P → World F → Outcome × World F) where
  failing_at :
      (payload : Bytes) (w : World F) (d : Decoded P)
      → codec.unmarshal (raw_of payload) ≡ d
      → ((p : P) (w : World F) → (run p w).0 ≢ succeeded)
      → (with_payload codec name run payload w).0 ≢ succeeded
  unfolding with_payload
  failing_at payload w (decoded p) e fails = rw (e, with_payload) (fails p w)
  failing_at payload w (invalid t) e fails = rw (e, with_payload) (ground arith)

  with_payload-NeverSucceeds :
      ((p : P) (w : World F) → (run p w).0 ≢ succeeded)
      → NeverSucceeds (with_payload codec name run)
  with_payload-NeverSucceeds fails payload w =
      failing_at payload w (codec.unmarshal (raw_of payload)) refl fails

always_error_handler-NeverSucceeds :
    {F : Type 0} (json : Json F) → NeverSucceeds (always_error_handler json)
unfolding always_error_handler run_always_error
always_error_handler-NeverSucceeds json =
    with_payload-NeverSucceeds json.always_error "alwaysError" (run_always_error json)
      (λ p w. ground arith)

module _ {F D : Type 0} (database : Database D) (json : Json F) (n : ℕ) where
  -- The job that `NewFailThenSucceedJob` builds with an id that is not yet counted and a
  -- `failTimes` of `k`, at most `MaxAttempts`, runs `k + 1` times where nothing else sleeps and no
  -- other handler is registered for its name, and its id's counter is `k + 1` then; the payload's
  -- text decodes to the payload.
  pub new_fail_then_succeed_job-life :
      (id : Text) (k : ℕ) (now : Instant) (job : Job (World F)) (m : Mem (World F) D)
      → new_fail_then_succeed_job json id (pos k) ≡ some job
      → ((raw : Text)
          → json.fail_then_succeed.marshal (record { id = id; fail_times = pos k }) ≡ some raw
          → json.fail_then_succeed.unmarshal raw ≡ decoded (record { id = id; fail_times = pos k }))
      → k ≤ n
      → n < 9223372036854775806
      → m.world.attempts id ≡ pos 0
      → IsIdle (fail_then_succeed_handler json) n "flaky-fail-then-succeed" m
      → (last : Mem (World F) D) × (life database (suc k) now job m ≡ some (suc k, last))
        × (last.world.attempts id ≡ pos (suc k))
  new_fail_then_succeed_job-life id k now job m built reads le small fresh idle =
      let b = new_fail_then_succeed_job-built json id k job built in
      let p : FailThenSucceedPayload = record { id = id; fail_times = pos k } in
      let h = fail_then_succeed_handler json in
      let j = new_retried_job-IsNew json.fail_then_succeed h "flaky-fail-then-succeed" p job b.1 in
      let r = reads j.raw j.marshalled in
      let s = fail_then_succeed_handler_lem json j.raw p k m.world r b.0 refl (omega arith) fresh in
      let l =
        life_of_succeeding_after database h n k now job m (rw j.payload s) le (omega arith)
          (IsNew-IsRetried json.fail_then_succeed h "flaky-fail-then-succeed" p n job m j idle) in
      (
        l.0,
        l.1,
        rw (l.2, j.payload)
            (attempts_after json j.raw p (suc k) 0 m.world r b.0 fresh (omega arith)
              ∙ ap pos (omega arith)),
      )

  -- The job that `NewAlwaysErrorJob` builds runs `MaxAttempts + 1` times under the same conditions.
  pub new_always_error_job-life :
      (msg : Text) (now : Instant) (job : Job (World F)) (m : Mem (World F) D)
      → new_always_error_job json msg ≡ some job
      → n < 9223372036854775808
      → IsIdle (always_error_handler json) n "fail-error" m
      → (last : Mem (World F) D) × (life database (suc n) now job m ≡ some (suc n, last))
  unfolding new_always_error_job
  new_always_error_job-life msg now job m built small idle =
      let h = always_error_handler json in
      let p : AlwaysErrorPayload = record { msg = msg } in
      let j = new_retried_job-IsNew json.always_error h "fail-error" p job built in
      life_of_never_succeeding database h n now job m (always_error_handler-NeverSucceeds json)
        small (IsNew-IsRetried json.always_error h "fail-error" p n job m j idle)
