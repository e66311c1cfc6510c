-- ===== src/Time.antt =====
-- Instants, durations and the timestamp texts of the jobs (the uses of Go's `time` in api/).
-- An instant counts nanoseconds from a whole second that lies before every RFC3339 instant.
use adele_queue.Base.{
  ℕ, ◌+◌, ◌-◌, ◌*◌, ◌/◌, ◌≤◌, ◌<◌, ◌≡◌, refl, Bool, true, false, Option, none, some, arith,
}
use adele_queue.Base.Int.{ℤ, pos, pos_part, neg_part, mul64, mul64-pos}
use adele_queue.Base.Text.{Text}

abbrev pub Instant : Type 0
Instant = ℕ

-- `time.Duration`: nanoseconds in an int64.
abbrev pub Duration : Type 0
Duration = ℤ

abbrev pub second : ℕ
second = 1000000000

-- `time.Duration(n) * time.Second`, which wraps.
unfoldable pub seconds : ℤ → Duration
seconds n = mul64 n (pos 1000000000)

-- `t.Add(d)`
unfoldable pub add_duration : Instant → Duration → Instant
add_duration t d = t + pos_part d - neg_part d

-- A timestamp text, as far as the code looks at it: it compares it with "", parses it, stores it
-- and writes it by `Format`. A text that `time.Parse` accepts is known by the instant it names.
pub data Stamp : Type 0 where
  unset : Stamp
  at : Instant → Stamp
  malformed : Text → Stamp

-- `s == ""`
abbrev pub is_unset : Stamp → Bool
is_unset unset = true
is_unset (at t) = false
is_unset (malformed s) = false

-- `time.Parse(time.RFC3339, s)`; `none` is its error.
abbrev pub parse : Stamp → Option Instant
parse unset = none
parse (at t) = some t
parse (malformed s) = none

-- `t.Format(time.RFC3339)`, which drops the fraction of a second.
unfoldable pub format : Instant → Stamp
format t = at (t / second * second)

-- What is formatted parses, to an instant at most a second earlier.
pub parse-format :
    (t : Instant) → (u : Instant) × (parse (format t) ≡ some u) × (u ≤ t) × (t ≤ u + 999999999)
unfolding format
parse-format t = (t / second * second, refl, omega arith, omega arith)

pub seconds-pos : (n : ℕ) → n < 9223372036 → seconds (pos n) ≡ pos (n * 1000000000)
unfolding seconds
seconds-pos n h = mul64-pos n 1000000000 (omega arith)
