-- ===== src/Bench/Attempts.antt =====
-- internal/bench/benchjobs/flaky_fail_then_succeed.go: how often the handler fails, and with it the
-- runs of its job on the memory backend.
use adele_queue.Base.{
  ℕ, zero, suc, ◌+◌, ◌<◌, ◌≡◌, ◌≢◌, refl, ap, String, ◌∙◌, arith, false, Bool-cases, inl, inr, [],
  some,
}
use adele_queue.Base.Int.{ℤ, pos, add64-pos_one}
use adele_queue.Base.Text.{Text, text_eq, text_eq_refl, text_eq_sound}
use adele_queue.Handler.{Outcome}
use adele_queue.Bench.{World, Codec, decoded, with_payload}
use adele_queue.Bench.Payloads.{FailThenSucceedPayload, Json}
use adele_queue.Bench.Flaky.{
  attempt_number, count_attempt, with_counter, fail_then_succeed, run_fail_then_succeed,
  fail_then_succeed_handler,
}
use adele_queue.Memory.Attempts.Until.{world_after, SucceedsAfter}

text_eq_empty : (id : Text) → id ≢ [] → text_eq id [] ≡ false
text_eq_empty id h = elim (Bool-cases (text_eq id [])) [
  | inl e ↦ absurd (h (text_eq_sound id [] e))
  | inr e ↦ e
]

with_payload-decoded :
    {F P : Type 0} (codec : Codec P) (name : String) (run : P → World F → Outcome × World F)
    (raw : Text) (p : P) (w : World F)
    → codec.unmarshal raw ≡ decoded p
    → with_payload codec name run (some raw) w ≡ run p w
unfolding with_payload
with_payload-decoded codec name run raw p w e = rw (e, with_payload)

with_counter_named :
    {F : Type 0} (name : String) (id : Text) (run : ℤ → World F → Outcome × World F) (w : World F)
    (c : ℕ)
    → id ≢ []
    → w.attempts id ≡ pos c
    → c < 9223372036854775807
    → with_counter name id run w ≡ run (pos (suc c)) (count_attempt id w)
unfolding with_counter attempt_number
with_counter_named name id run w c named at small =
    rw (text_eq_empty id named, at, add64-pos_one c small)

count_attempt-attempts :
    {F : Type 0} (id : Text) (w : World F) (c : ℕ)
    → w.attempts id ≡ pos c
    → c < 9223372036854775807
    → (count_attempt id w).attempts id ≡ pos (suc c)
unfolding count_attempt attempt_number
count_attempt-attempts id w c at small = rw (text_eq_refl id, at, add64-pos_one c small) refl

module _ {F : Type 0} (json : Json F) (raw : Text) (p : FailThenSucceedPayload) where
  -- A call that decodes to a payload with an id counts, and fails up to `FailTimes`.
  call :
      (c : ℕ) (w : World F)
      → json.fail_then_succeed.unmarshal raw ≡ decoded p
      → p.id ≢ []
      → w.attempts p.id ≡ pos c
      → c < 9223372036854775807
      → fail_then_succeed_handler json (some raw) w
        ≡ fail_then_succeed json p (pos (suc c)) (count_attempt p.id w)
  unfolding fail_then_succeed_handler run_fail_then_succeed
  call c w reads named at small =
      with_payload-decoded json.fail_then_succeed "failThenSucceed" (run_fail_then_succeed json) raw
        p w reads
      ∙ with_counter_named "failThenSucceed" p.id (fail_then_succeed json p) w c named at small

  pub attempts_after :
      (i c : ℕ) (w : World F)
      → json.fail_then_succeed.unmarshal raw ≡ decoded p
      → p.id ≢ []
      → w.attempts p.id ≡ pos c
      → c + i < 9223372036854775807
      → (world_after (fail_then_succeed_handler json) (some raw) i w).attempts p.id ≡ pos (c + i)
  unfolding world_after fail_then_succeed
  attempts_after zero c w reads named at small = at ∙ ap pos (omega arith)
  attempts_after (suc i) c w reads named at small =
      rw (call c w reads named at (omega arith), world_after)
        (attempts_after i (suc c) (fail_then_succeed json p (pos (suc c)) (count_attempt p.id w)).1
            reads named (count_attempt-attempts p.id w c at (omega arith)) (omega arith)
          ∙ ap pos (omega arith))

  -- The handler of a payload with an id, `FailTimes` being `k` and the id's counter 0, fails at the
  -- first `k` calls and succeeds at the next.
  pub fail_then_succeed_handler_lem :
      (k : ℕ) (w : World F)
      → json.fail_then_succeed.unmarshal raw ≡ decoded p
      → p.id ≢ []
      → p.fail_times ≡ pos k
      → k < 9223372036854775807
      → w.attempts p.id ≡ pos 0
      → SucceedsAfter (fail_then_succeed_handler json) (some raw) k w
  unfolding fail_then_succeed
  fail_then_succeed_handler_lem k w reads named times small at = record {
    fails = λ i lt.
        rw
          (
            call i (world_after (fail_then_succeed_handler json) (some raw) i w) reads named
                (attempts_after i 0 w reads named at (omega arith) ∙ ap pos (omega arith))
                (omega arith),
            times,
          )
          (ground arith);
    succeeds =
        rw
          (
            call k (world_after (fail_then_succeed_handler json) (some raw) k w) reads named
                (attempts_after k 0 w reads named at (omega arith) ∙ ap pos (omega arith))
                (omega arith),
            times,
          )
          (ground arith);
  }
