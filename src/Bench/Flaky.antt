-- ===== src/Bench/Flaky.antt =====
-- internal/bench/benchjobs: flaky_fail_then_succeed.go, flaky_intermittent.go and
-- flaky_exhaust_retries.go.
use adele_queue.Base.{◌+◌, [], ◌++◌, not, Option, none, String, if◌then◌else◌}
use adele_queue.Base.Int.{ℤ, pos, add64, leb_ℤ, ltb_ℤ}
use adele_queue.Base.Text.{Text, codes, text_eq}
use adele_queue.Base.Decimal.{decimal}
use adele_queue.Handler.{Outcome, succeeded, failed, Handler}
use adele_queue.Job.{Job}
use adele_queue.Bench.{
  fail_then_succeed_line, intermittent_line, exhaust_line, World, print, with_payload,
  new_retried_job,
}
use adele_queue.Bench.Payloads.{
  FailThenSucceedPayload, IntermittentPayload, ExhaustRetriesPayload, Json, Float,
}

-- `atomic.AddInt64(loadOrCreateCounter(id), 1)`: the counter's new value.
unfoldable pub attempt_number : {F : Type 0} → Text → World F → ℤ
attempt_number id w = add64 (w.attempts id) (pos 1)

unfoldable pub count_attempt : {F : Type 0} → Text → World F → World F
unfolding attempt_number
count_attempt id w = record w {
  attempts = λ i. if text_eq id i then attempt_number id w else w.attempts i;
}

-- What follows the decoding in each of the handlers: an empty id fails, any other is counted.
unfoldable pub with_counter :
    {F : Type 0} → String → Text → (ℤ → World F → Outcome × World F) → World F → Outcome × World F
unfolding attempt_number count_attempt
with_counter name id run w =
    if text_eq id []
    then (failed (codes name ++ codes ": empty ID"), w)
    else run (attempt_number id w) (count_attempt id w)

module _ {F : Type 0} (json : Json F) where
  unfoldable pub fail_then_succeed : FailThenSucceedPayload → ℤ → World F → Outcome × World F
  fail_then_succeed p attempt w =
      let fails = leb_ℤ attempt p.fail_times in
      (
        if fails
            then failed (codes "planned failure on attempt " ++ decimal attempt)
            else succeeded,
        print (fail_then_succeed_line p.id attempt (not fails)) w,
      )

  unfoldable pub run_fail_then_succeed : FailThenSucceedPayload → World F → Outcome × World F
  unfolding with_counter fail_then_succeed
  run_fail_then_succeed p w = with_counter "failThenSucceed" p.id (fail_then_succeed p) w

  unfoldable pub fail_then_succeed_handler : Handler (World F)
  unfolding run_fail_then_succeed
  fail_then_succeed_handler =
      with_payload json.fail_then_succeed "failThenSucceed" run_fail_then_succeed

  unfoldable pub new_fail_then_succeed_job : Text → ℤ → Option (Job (World F))
  new_fail_then_succeed_job id fail_times =
      if text_eq id []
      then none
      else new_retried_job json.fail_then_succeed "flaky-fail-then-succeed"
          fail_then_succeed_handler (record { id = id; fail_times = fail_times })

  exhaust_retries : ExhaustRetriesPayload → ℤ → World F → Outcome × World F
  exhaust_retries p attempt w = (
    failed (codes "exhaustRetries: permanent failure on attempt " ++ decimal attempt),
    print (exhaust_line p.id attempt (ltb_ℤ (pos 3) attempt)) w,
  )

  run_exhaust_retries : ExhaustRetriesPayload → World F → Outcome × World F
  unfolding with_counter exhaust_retries
  run_exhaust_retries p w = with_counter "exhaustRetries" p.id (exhaust_retries p) w

  unfoldable pub exhaust_retries_handler : Handler (World F)
  unfolding run_exhaust_retries
  exhaust_retries_handler = with_payload json.exhaust_retries "exhaustRetries" run_exhaust_retries

  unfoldable pub new_exhaust_retries_job : Text → Option (Job (World F))
  new_exhaust_retries_job id =
      if text_eq id []
      then none
      else new_retried_job json.exhaust_retries "flaky-exhaust-retries" exhaust_retries_handler
          (record { id = id })

  module _ (float : Float F) where
    -- The roll is drawn after the attempt is counted.
    intermittent : IntermittentPayload F → ℤ → World F → Outcome × World F
    intermittent p attempt w =
        let fails = float.le p.p (w.rolls w.rolled) in
        (
          if fails then failed (codes "RNG failure on attempt " ++ decimal attempt) else succeeded,
          print (intermittent_line p.id attempt (not fails)) (record w { rolled = w.rolled + 1 }),
        )

    run_intermittent : IntermittentPayload F → World F → Outcome × World F
    unfolding with_counter intermittent
    run_intermittent p w = with_counter "intermittent" p.id (intermittent p) w

    unfoldable pub intermittent_handler : Handler (World F)
    unfolding run_intermittent
    intermittent_handler = with_payload json.intermittent "intermittent" run_intermittent

    clamp : F → F
    clamp p =
        if float.lt p float.zero_float
        then float.zero_float
        else (if float.lt float.one_float p then float.one_float else p)

    unfoldable pub new_intermittent_job : Text → F → Option (Job (World F))
    unfolding clamp
    new_intermittent_job id p =
        if text_eq id []
        then none
        else new_retried_job json.intermittent "flaky-intermittent" intermittent_handler
            (record { id = id; p = clamp p })
