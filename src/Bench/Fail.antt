-- ===== src/Bench/Fail.antt =====
-- internal/bench/benchjobs: fail_error.go, fail_panic.go and fail_nil_deref.go.
use adele_queue.Base.{◌+◌, ◌%◌, ◌==◌, Option, some, if◌then◌else◌}
use adele_queue.Base.Int.{pos, add64, pos_part, neg_part}
use adele_queue.Base.Text.{Text, codes}
use adele_queue.Handler.{Outcome, failed, panicked, Handler}
use adele_queue.Job.{Job, zero_job}
use adele_queue.Bench.{World, always_error_line, print, with_payload, new_job, new_retried_job}
use adele_queue.Bench.Payloads.{AlwaysErrorPayload, PanicPayload, Json}

module _ {F : Type 0} (json : Json F) where
  -- Every 100th call is printed; a negative count is a multiple of 100 where its absolute value is.
  unfoldable pub run_always_error : AlwaysErrorPayload → World F → Outcome × World F
  run_always_error p w =
      let n = add64 w.always_error (pos 1) in
      let w' = record w { always_error = n } in
      (
        failed p.msg,
        if (pos_part n + neg_part n) % 100 == 0 then print (always_error_line n) w' else w',
      )

  unfoldable pub always_error_handler : Handler (World F)
  unfolding run_always_error
  always_error_handler = with_payload json.always_error "alwaysError" run_always_error

  unfoldable pub new_always_error_job : Text → Option (Job (World F))
  new_always_error_job msg =
      new_retried_job json.always_error "fail-error" always_error_handler (record { msg = msg })

  run_panic : PanicPayload → World F → Outcome × World F
  run_panic p w = (panicked p.msg, w)

  unfoldable pub panic_handler : Handler (World F)
  unfolding run_panic
  panic_handler = with_payload json.panic "panic" run_panic

  unfoldable pub new_panic_job : Text → Option (Job (World F))
  new_panic_job msg = new_job json.panic "fail-panic" panic_handler (record { msg = msg })

unfoldable pub nil_deref_handler : {F : Type 0} → Handler (World F)
nil_deref_handler payload w =
    (panicked (codes "runtime error: invalid memory address or nil pointer dereference"), w)

unfoldable pub new_nil_deref_job : {F : Type 0} → Option (Job (World F))
new_nil_deref_job = some (record zero_job {
  name = "fail-nil-deref";
  payload = some (codes "{}");
  handler = some nil_deref_handler;
  queue = codes "job";
})
