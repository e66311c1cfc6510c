-- ===== src/Bench/Slow.antt =====
-- internal/bench/benchjobs: slow_sleep.go, slow_busy_loop.go and slow_fanout.go.
use adele_queue.Base.{ℕ, zero, suc, ◌+◌, ◌*◌, ◌/◌, ◌%◌, Option, if◌then◌else◌}
use adele_queue.Base.Int.{ℤ, pos, negsuc, pos_part, ltb_ℤ}
use adele_queue.Base.Text.{codes}
use adele_queue.Time.{Duration}
use adele_queue.Handler.{Outcome, succeeded, panicked, Handler}
use adele_queue.Job.{Job}
use adele_queue.Bench.{World, slept_line, busy_line, fanout_line, print, with_payload, new_job}
use adele_queue.Bench.Payloads.{SleepPayload, BusyLoopPayload, FanoutPayload, Json}

-- `d.Milliseconds()`, which drops the rest towards 0.
milliseconds : Duration → ℤ
milliseconds (pos d) = pos (d / 1000000)
milliseconds (negsuc d) = elim ((d + 1) / 1000000) [ zero ↦ pos 0 | suc m ↦ negsuc m ]

-- The 64-bit `sink` after so many rounds from the i-th on.
busy_loop : ℕ → ℕ → ℕ → ℕ
busy_loop zero i sink = sink
busy_loop (suc n) i sink =
    busy_loop n (i + 1) ((sink * 1664525 + i + 1013904223) % 18446744073709551616)

module _ {F : Type 0} (json : Json F) where
  run_sleep : SleepPayload → World F → Outcome × World F
  run_sleep p w = (succeeded, print (slept_line p.millis) w)

  unfoldable pub sleep_handler : Handler (World F)
  unfolding run_sleep
  sleep_handler = with_payload json.sleep "sleep" run_sleep

  unfoldable pub new_sleep_job : Duration → Option (Job (World F))
  unfolding milliseconds
  new_sleep_job d =
      new_job json.sleep "slow-sleep" sleep_handler (record { millis = milliseconds d })

  run_busy_loop : BusyLoopPayload → World F → Outcome × World F
  run_busy_loop p w =
      (succeeded, print (busy_line p.iterations (busy_loop (pos_part p.iterations) 0 0)) w)

  unfoldable pub busy_loop_handler : Handler (World F)
  unfolding run_busy_loop busy_loop
  busy_loop_handler = with_payload json.busy_loop "busyLoop" run_busy_loop

  unfoldable pub new_busy_loop_job : ℤ → Option (Job (World F))
  new_busy_loop_job n =
      new_job json.busy_loop "slow-busy-loop" busy_loop_handler (record { iterations = n })

  -- `wg.Add` of a negative number panics.
  run_fanout : FanoutPayload → World F → Outcome × World F
  run_fanout p w =
      if ltb_ℤ p.workers (pos 0)
      then (panicked (codes "sync: negative WaitGroup counter"), w)
      else (succeeded, print (fanout_line p.workers p.delay_ms) w)

  unfoldable pub fanout_handler : Handler (World F)
  unfolding run_fanout
  fanout_handler = with_payload json.fanout "fanout" run_fanout

  unfoldable pub new_fanout_job : ℤ → ℤ → Option (Job (World F))
  new_fanout_job workers delay_ms =
      new_job json.fanout "slow-fanout" fanout_handler
        (record { workers = workers; delay_ms = delay_ms })
