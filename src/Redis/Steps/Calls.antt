-- ===== src/Redis/Steps/Calls.antt =====
-- How often the workers that meet the same pending key at once call the handler (api/redis.go).
pub mod Step
pub mod Bound
use mathlib.Core.Option.{none-ne-some, some-injective}
use mathlib.Core.Path.{subst}
use adele_queue.Base.{ℕ, suc, ◌+◌, ◌≤◌, ◌≡◌, ◌≢◌, sym, ◌∙◌, arith, true, none, some}
use adele_queue.Base.Int.{ℤ, pos}
use adele_queue.Base.Text.{Text}
use adele_queue.Job.{Hash}
use adele_queue.Key.{KeyState, pending, locked, key}
use adele_queue.Key
use adele_queue.Redis.{RedisApi, Node}
use adele_queue.Redis.View.{view}
use adele_queue.Redis.Scan.{Flow}
use adele_queue.Redis.Steps.{Place, renamed, stamped, loaded, marked, called, moving, finished}
use adele_queue.Redis.Steps.System.{holding}

-- A counter that allows `n` attempts and has counted every call.
abbrev Counts : ℕ → ℕ → ℤ → Type 0
Counts n calls z = (z ≡ pos calls) × (calls ≤ n)

module _ {S : Type 0} (api : RedisApi S) (queue id : Text) (n : ℕ) where
  -- The hash that a key of the job holds, if any, has counted every call.
  abbrev Kept : KeyState → S → ℕ → Type 0
  Kept st s calls =
      (x : Hash) × (view api s (key st queue id) ≡ some x) × Counts n calls x.retry_counter

  -- What a worker at its place knows of the counter.
  abbrev Carries : {W : Type 0} → Place W → S → ℕ → Type 0
  Carries renamed s calls = Kept locked s calls
  Carries stamped s calls = Kept locked s calls
  Carries (loaded job) s calls = Kept locked s calls × Counts n calls job.retry_counter
  Carries (marked job) s calls = Counts n calls job.retry_counter
  Carries (called v job) s calls = (c : ℕ) × (calls ≡ suc c) × Counts n c job.retry_counter
  Carries (moving new job) s calls = new ≢ pending
  Carries at s calls = Unit

  -- What holds of a server and one of its workers.
  record IsCounted {W D : Type 0} (at : Place W) (m : Node S W D) (calls : ℕ) : Type 0 where
    bound : calls ≤ n + 1
    waiting :
        (x : Hash)
        → view api m.server (key pending queue id) ≡ some x
        → Counts n calls x.retry_counter
    claimed : holding at ≡ true → view api m.server (key pending queue id) ≡ none
    carried : Carries at m.server calls

  -- A worker that does not hold the job.
  freed :
      {W D : Type 0} (f : Flow) (m : Node S W D) (calls : ℕ)
      → calls ≤ n + 1
      → ((x : Hash)
          → view api m.server (key pending queue id) ≡ some x
          → Counts n calls x.retry_counter)
      → IsCounted {W = W} (finished f) m calls
  unfolding holding
  freed f m calls bound waiting = record {
    bound = bound;
    waiting = waiting;
    claimed = λ e. absurd (ground (arith, e));
    carried = tt;
  }

  -- The hash that stands under the pending key.
  freed_with :
      {W D : Type 0} (f : Flow) (x : Hash) (m : Node S W D) (calls : ℕ)
      → calls ≤ n + 1
      → view api m.server (key pending queue id) ≡ some x
      → Counts n calls x.retry_counter
      → IsCounted {W = W} (finished f) m calls
  freed_with f x m calls bound found counts = freed f m calls bound (λ y e.
      subst (λ (z : Hash). Counts n calls z.retry_counter) (some-injective x y (sym found ∙ e))
        counts)

  -- A worker that does not hold the job any more, which has left its pending key.
  left :
      {W D : Type 0} (f : Flow) (m : Node S W D) (calls : ℕ)
      → calls ≤ n + 1
      → view api m.server (key pending queue id) ≡ none
      → IsCounted {W = W} (finished f) m calls
  left f m calls bound gone = freed f m calls bound (λ x e. absurd (none-ne-some x (sym gone ∙ e)))

  -- A worker that holds it.
  held :
      {W D : Type 0} (at : Place W) (m : Node S W D) (calls : ℕ)
      → calls ≤ n + 1
      → view api m.server (key pending queue id) ≡ none
      → Carries at m.server calls
      → IsCounted at m calls
  held at m calls bound gone carried = record {
    bound = bound;
    waiting = λ x e. absurd (none-ne-some x (sym gone ∙ e));
    claimed = λ _. gone;
    carried = carried;
  }
