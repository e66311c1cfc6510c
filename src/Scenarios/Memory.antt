-- ===== src/Scenarios/Memory.antt =====
-- The theorems on the memory backend at a sample process.
use adele_queue.Base.{
  zero, suc, ◌≢◌, ◌<◌, inl, ℕ, ◌+◌, ◌≡◌, refl, arith, true, false, List, [], ◌∷◌, ◌++◌, none, some,
  length,
}
use adele_queue.Base.Int.{pos, add64, ◌≤ℤ◌}
use adele_queue.Base.Text.{Text, codes}
use adele_queue.Json.{json_marshal}
use adele_queue.Handler.{succeeded, failed, Handler}
use adele_queue.Time.{Instant}
use adele_queue.Job.{Job}
use adele_queue.Database.{jobs, failed_jobs}
use adele_queue.Registry.{lookup}
use adele_queue.Memory.{Mem, retry_delay, next_attempt, cache_failure, add_failed_job}
use adele_queue.Memory.Worker.{process, runnable}
use adele_queue.Memory.Dispatch.{send, dispatch_memory, close_memory}
use adele_queue.Memory.Failure.{cache_failure_bounds, retry_delay_lem, add_failed_job_final}
use adele_queue.Memory.Accounting.{Accepts, traces, traces-process}
use adele_queue.Memory.Attempts.{life, IsRetried}
use adele_queue.Memory.Attempts.Bound.{life_of_never_succeeding}
use adele_queue.Memory.Attempts.Until.{world_after, SucceedsAfter, life_of_succeeding_after}
use adele_queue.Memory.Steps.{Step, Reach}
use adele_queue.Memory.Steps.Close.{close_memory-woken}
use adele_queue.Scenarios.World.{Tables, job, fails, database, memory}

cache_failure_bounds_example :
    (pos (length (cache_failure (pos 2) (codes "a" ∷ codes "b" ∷ []) (codes "c"))) ≤ℤ pos 2)
    × ((before : List Text) × (cache_failure (pos 2) (codes "a" ∷ codes "b" ∷ []) (codes "c")
          ≡ before ++ codes "c" ∷ []))
cache_failure_bounds_example =
    cache_failure_bounds (pos 2) (codes "a" ∷ codes "b" ∷ []) (codes "c") (ground arith)
      (ground arith)

-- A job that has been retried twice, 10 seconds apart.
abbrev retried : Job ℕ
retried = record job { retry_in_seconds = pos 10; retry_counter = pos 2 }

retry_delay_lem_example : retry_delay retried ≡ pos 20000000000
retry_delay_lem_example =
    retry_delay_lem retried 10 2 refl refl (omega arith) (omega arith) (omega arith)

next_of_job : next_attempt (pos 1) job ≡ some (record job { retry_counter = pos 1 })
unfolding next_attempt add64
next_of_job = refl

-- A job whose one retry is used up.
abbrev spent : Job ℕ
spent = record job { retry_counter = pos 1; exception = codes "no route" }

none_of_spent : next_attempt (pos 1) spent ≡ none
unfolding next_attempt
none_of_spent = refl

add_failed_job_final_example :
    ((add_failed_job database 5 spent memory).sleepers ≡ [])
    × ((add_failed_job database 5 spent memory).db.1
        ≡ record {
          job_id = codes "7";
          name = "mail";
          payload = some (json_marshal (codes "hi"));
          attempts = pos 0;
          created_at = 0;
          updated_at = 0;
          exception = [];
        }
          ∷ [])
add_failed_job_final_example = add_failed_job_final database 5 spent memory none_of_spent refl refl

accepts : Accepts database
accepts jobs r d = refl
accepts failed_jobs r d = refl

traces-process_example : traces database (process database 5 job memory) ≡ 0 + 1
unfolding runnable
traces-process_example = traces-process database accepts 5 job memory refl

mail-IsRetried : IsRetried fails 1 0 job memory
unfolding lookup
mail-IsRetried = record {
  inline = refl;
  entry = inl refl;
  retries = refl;
  counter = refl;
  limit = refl;
  alone = refl;
}

life_of_never_succeeding_example :
    (last : Mem ℕ Tables) × (life database 2 5 job memory ≡ some (2, last))
life_of_never_succeeding_example =
    life_of_never_succeeding database fails 1 5 job memory (λ p w. ground arith) (omega arith)
      mail-IsRetried

-- A handler that fails at its first call.
abbrev recovers : Handler ℕ
recovers payload zero = (failed (codes "no route"), 1)
recovers payload (suc calls) = (succeeded, calls + 2)

abbrev recovering : Job ℕ
recovering = record job { handler = some recovers }

recovering-IsRetried : IsRetried recovers 1 0 recovering memory
unfolding lookup
recovering-IsRetried = record {
  inline = refl;
  entry = inl refl;
  retries = refl;
  counter = refl;
  limit = refl;
  alone = refl;
}

recovers-SucceedsAfter : SucceedsAfter recovers (some (codes "hi")) 1 0
unfolding world_after
recovers-SucceedsAfter = record { fails = fails_first; succeeds = refl }
  where
    fails_first :
        (i : ℕ)
        → i < 1
        → (recovers (some (codes "hi")) (world_after recovers (some (codes "hi")) i 0)).0
          ≢ succeeded
    fails_first zero lt = ground arith
    fails_first (suc i) lt = absurd (omega arith)

life_of_succeeding_after_example :
    (last : Mem ℕ Tables) × (life database 2 5 recovering memory ≡ some (2, last))
    × (last.world ≡ world_after recovers (some (codes "hi")) 2 0)
life_of_succeeding_after_example =
    life_of_succeeding_after database recovers 1 1 5 recovering memory recovers-SucceedsAfter
      (omega arith) (omega arith) recovering-IsRetried

-- The process after one call of `Dispatch`.
abbrev sent : Mem ℕ Tables
sent = (dispatch_memory (codes "7") 5 6 job memory).0

-- A process in which a retry sleeps.
abbrev sleeping : Mem ℕ Tables
sleeping = record memory { sleepers = (9, job) ∷ [] }

close_memory-woken_example :
    ((close_memory sleeping).crashed ≡ false)
    × ((close_memory sleeping).sleepers ≡ (9, job) ∷ [])
    × ((t : Mem ℕ Tables)
        → Reach database (close_memory sleeping) t
        → t.crashed ≡ false
        → (before after : List (Instant × Job ℕ)) (time : Instant) (job' : Job ℕ)
        → t.sleepers ≡ before ++ (time, job') ∷ after
        → Step database t (send job' (record t { sleepers = before ++ after }))
          × ((send job' (record t { sleepers = before ++ after })).crashed ≡ true))
close_memory-woken_example = close_memory-woken database sleeping refl refl refl
