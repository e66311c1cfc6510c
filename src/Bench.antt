-- ===== src/Bench.antt =====
-- internal/bench/benchjobs: what the jobs of the benchmark share. Their handlers act on a world
-- that keeps what they print and count.
pub mod Payloads
pub mod Simple
pub mod Slow
pub mod Fail
pub mod Flaky
pub mod Edge
pub mod Registry
pub mod Stress
pub mod Harness
pub mod Built
pub mod Attempts
pub mod Life
use adele_queue.Base.{ℕ, Bool, true, List, [], ◌∷◌, ◌++◌, Option, none, some, String}
use adele_queue.Base.Int.{ℤ, pos}
use adele_queue.Base.Text.{Text, codes}
use adele_queue.Time.{Instant}
use adele_queue.Handler.{Bytes, Outcome, failed, Handler}
use adele_queue.Job.{Job, zero_job}

-- The lines that the handlers print, without the times that they took.
pub data Line : Type 0 where
  hello_line : Text → Line
  sum_line : ℤ → ℤ → ℤ → Line
  counter_line : ℕ → Line
  slept_line : ℤ → Line
  busy_line : ℤ → ℕ → Line
  fanout_line : ℤ → ℤ → Line
  always_error_line : ℤ → Line
  fail_then_succeed_line : Text → ℤ → Bool → Line
  intermittent_line : Text → ℤ → Bool → Line
  exhaust_line : Text → ℤ → Bool → Line
  large_line : ℕ → Line
  unicode_line : Text → ℕ → ℕ → Line
  nested_line : Instant → Text → ℕ → ℕ → List Text → Line

-- `flakyAttempts` by id, where an id without a counter counts 0; `AlwaysErrorAttempts`; and the
-- generator of random numbers, as the sequence that it will give and the place in it.
pub record World (F : Type 0) : Type 0 where
  pub printed : List Line
  pub attempts : Text → ℤ
  pub always_error : ℤ
  pub rolls : ℕ → F
  pub rolled : ℕ

abbrev pub print : {F : Type 0} → Line → World F → World F
print l w = record w { printed = w.printed ++ l ∷ [] }

-- `json.Unmarshal` into a zero value: the value, or the text of the error.
pub data Decoded (P : Type 0) : Type 0 where
  decoded : P → Decoded P
  invalid : Text → Decoded P

-- `encoding/json` at one type of payload; `none` where `json.Marshal` fails.
pub record Codec (P : Type 0) : Type 0 where
  pub marshal : P → Option Text
  pub unmarshal : Text → Decoded P

-- A nil slice has no byte. A payload that reaches a handler is a `[]byte`.
abbrev pub raw_of : Bytes → Text
raw_of none = []
raw_of (some raw) = raw

-- The part of a handler that is the same in all: it decodes the payload, or fails.
unfoldable pub with_payload :
    {F P : Type 0} → Codec P → String → (P → World F → Outcome × World F) → Handler (World F)
with_payload codec name run payload w = elim (codec.unmarshal (raw_of payload)) [
  | invalid e ↦ (failed (codes name ++ codes ": unmarshal: " ++ e), w)
  | decoded p ↦ run p w
]

-- The job that a constructor returns, or `none` where the payload does not marshal.
unfoldable pub new_job :
    {F P : Type 0} → Codec P → String → Handler (World F) → P → Option (Job (World F))
new_job codec name handler p = elim (codec.marshal p) [
  | none ↦ none
  | some raw ↦ some (record zero_job {
    name = name;
    payload = some raw;
    handler = some handler;
    queue = codes "job";
  })
]

-- The same with `Retry: true` and `RetryInSeconds: 1`.
unfoldable pub new_retried_job :
    {F P : Type 0} → Codec P → String → Handler (World F) → P → Option (Job (World F))
new_retried_job codec name handler p = elim (codec.marshal p) [
  | none ↦ none
  | some raw ↦ some (record zero_job {
    name = name;
    payload = some raw;
    handler = some handler;
    queue = codes "job";
    retry = true;
    retry_in_seconds = pos 1;
  })
]
