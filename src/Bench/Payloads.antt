-- ===== src/Bench/Payloads.antt =====
-- internal/bench/benchjobs: the payloads of the jobs, and their codecs.
use adele_queue.Base.{List, Option, Bool}
use adele_queue.Base.Int.{ℤ}
use adele_queue.Base.Text.{Text}
use adele_queue.Time.{Instant}
use adele_queue.Bench.{Codec}

pub record HelloPayload : Type 0 where
  pub name : Text

pub record SumPayload : Type 0 where
  pub a : ℤ
  pub b : ℤ

pub record CounterPayload : Type 0 where
  pub n : ℤ

pub record SleepPayload : Type 0 where
  pub millis : ℤ

pub record BusyLoopPayload : Type 0 where
  pub iterations : ℤ

pub record FanoutPayload : Type 0 where
  pub workers : ℤ
  pub delay_ms : ℤ

pub record AlwaysErrorPayload : Type 0 where
  pub msg : Text

pub record PanicPayload : Type 0 where
  pub msg : Text

pub record FailThenSucceedPayload : Type 0 where
  pub id : Text
  pub fail_times : ℤ

-- `F` is the type of 64-bit floats.
pub record IntermittentPayload (F : Type 0) : Type 0 where
  pub id : Text
  pub p : F

pub record ExhaustRetriesPayload : Type 0 where
  pub id : Text

pub record LargePayload : Type 0 where
  pub data_text : Text

pub record UnicodePayload : Type 0 where
  pub text : Text
  pub emoji : Text
  pub lang : Text

pub record NestedLevel5 : Type 0 where
  pub leaf : Text

pub record NestedLevel4 : Type 0 where
  pub level5 : Option NestedLevel5

-- A map is the list of its entries.
pub record NestedLevel3 : Type 0 where
  pub level4 : NestedLevel4
  pub tags : List Text
  pub metric : List (Text × ℤ)

pub record NestedLevel2 : Type 0 where
  pub level3 : NestedLevel3
  pub rows : List (List (Text × ℤ))
  pub int_map : List (Text × Text)

pub record NestedLevel1 : Type 0 where
  pub level2 : NestedLevel2
  pub timestamp : Instant
  pub null_ptr : Option ℤ

pub record NestedPayload : Type 0 where
  pub level1 : NestedLevel1

-- `encoding/json` at each of these types.
pub record Json (F : Type 0) : Type 0 where
  pub hello : Codec HelloPayload
  pub sum : Codec SumPayload
  pub counter : Codec CounterPayload
  pub sleep : Codec SleepPayload
  pub busy_loop : Codec BusyLoopPayload
  pub fanout : Codec FanoutPayload
  pub always_error : Codec AlwaysErrorPayload
  pub panic : Codec PanicPayload
  pub fail_then_succeed : Codec FailThenSucceedPayload
  pub intermittent : Codec (IntermittentPayload F)
  pub exhaust_retries : Codec ExhaustRetriesPayload
  pub large : Codec LargePayload
  pub unicode : Codec UnicodePayload
  pub nested : Codec NestedPayload

-- The comparison of floats, and the two constants that are used.
pub record Float (F : Type 0) : Type 0 where
  pub lt : F → F → Bool
  pub le : F → F → Bool
  pub zero_float : F
  pub one_float : F
  pub half_float : F
