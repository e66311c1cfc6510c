-- ===== src/Bench/Simple.antt =====
-- internal/bench/benchjobs: simple_hello.go, simple_math.go and simple_counter.go.
use adele_queue.Base.{ℕ, zero, suc, Option, List, [], ◌∷◌, ◌++◌}
use adele_queue.Base.Int.{ℤ, pos, negsuc, add64}
use adele_queue.Base.Text.{Text}
use adele_queue.Handler.{Outcome, succeeded, Handler}
use adele_queue.Job.{Job}
use adele_queue.Bench.{
  Line, hello_line, sum_line, counter_line, World, print, with_payload, new_job,
}
use adele_queue.Bench.Payloads.{HelloPayload, SumPayload, CounterPayload, Json}

-- The lines of `for i := 0; i <= n; i++`, in their order. For the greatest int the loop would not
-- end.
count_up : ℕ → List Line
count_up zero = counter_line 0 ∷ []
count_up (suc n) = count_up n ++ counter_line (suc n) ∷ []

counted : ℤ → List Line
unfolding count_up
counted (pos n) = count_up n
counted (negsuc n) = []

module _ {F : Type 0} (json : Json F) where
  run_hello : HelloPayload → World F → Outcome × World F
  run_hello p w = (succeeded, print (hello_line p.name) w)

  unfoldable pub hello_handler : Handler (World F)
  unfolding run_hello
  hello_handler = with_payload json.hello "hello" run_hello

  unfoldable pub new_hello_job : Text → Option (Job (World F))
  new_hello_job name = new_job json.hello "hello-world" hello_handler (record { name = name })

  run_sum : SumPayload → World F → Outcome × World F
  run_sum p w = (succeeded, print (sum_line p.a p.b (add64 p.a p.b)) w)

  unfoldable pub sum_handler : Handler (World F)
  unfolding run_sum
  sum_handler = with_payload json.sum "sum" run_sum

  unfoldable pub new_sum_job : ℤ → ℤ → Option (Job (World F))
  new_sum_job a b = new_job json.sum "simple-sum" sum_handler (record { a = a; b = b })

  run_counter : CounterPayload → World F → Outcome × World F
  unfolding counted
  run_counter p w = (succeeded, record w { printed = w.printed ++ counted p.n })

  unfoldable pub counter_handler : Handler (World F)
  unfolding run_counter
  counter_handler = with_payload json.counter "counter" run_counter

  unfoldable pub new_counter_job : ℤ → Option (Job (World F))
  new_counter_job n = new_job json.counter "simple-counter" counter_handler (record { n = n })
