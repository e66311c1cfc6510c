-- ===== src/Redis/Steps/Calls/Step.antt =====
-- A step of a worker keeps count of the calls of the handler (api/redis.go).
use adele_queue.Base.{
  ℕ, suc, ◌+◌, ◌≤◌, ◌<◌, ◌≡◌, ◌≢◌, refl, sym, ap, ◌∙◌, arith, Bool, true, false, Option, none, some,
  Option-cases, Bool-cases, inl, inr, ltb, if◌then◌else◌,
}
use adele_queue.Base.Int.{pos, add64-pos_one}
use adele_queue.Base.Text.{Text}
use adele_queue.Time.{Instant, parse, format}
use adele_queue.Job.{Job, add_flat, scan_struct}
use adele_queue.Database.{Database}
use adele_queue.Queue.{Queue}
use adele_queue.Key.{KeyState, pending, locked, key}
use adele_queue.Redis.{
  RedisApi, IsReliable, Node, Fields, all_fields, locked_at_field, status_field, set_redis_key,
}
use adele_queue.Redis.View.{view, view-hset_self}
use adele_queue.Redis.Handle.{done, errored, unhandled, retried_job, retriable}
use adele_queue.Redis.Scan.{proceed, returned, no_error}
use adele_queue.Redis.Steps.{
  Place, arriving, renamed, stamped, loaded, marked, called, moving, finished, store, pass,
  conclude, move, step,
}
use adele_queue.Redis.Steps.Pending.{
  pending-hset_locked, locked-hset_locked, claim_missing, claim_found, read_locked, put_back,
  moved_off,
}
use adele_queue.Redis.Steps.System.{holding, tally}
use adele_queue.Redis.Steps.Calls.{Counts, Carries, IsCounted, freed, freed_with, left, held}

not_none : {A : Type 0} (o : Option A) → o ≢ none → no_error o ≡ false
not_none none ne = absurd (ne refl)
not_none (some a) ne = refl

module _ {S W D : Type 0} (api : RedisApi S) (reliable : IsReliable api) (database : Database D)
    (q : Queue W) (queue id : Text) (clock : ℕ → Instant) (n : ℕ) (limit : q.max_attempts ≡ pos n)
    (small : n < 9223372036854775807) where
  hset_after :
      (other : Text) (f : Fields) (at : Place W) (e : Bool) (m : Node S W D) (calls : ℕ)
      → calls ≤ n + 1
      → view api m.server (key pending queue id) ≡ none
      → Carries api queue id n at (api.hset (key locked queue other) f m.server).0 calls
      → IsCounted api queue id n
          (if e then at else finished proceed)
          (record m { server = (api.hset (key locked queue other) f m.server).0 })
          calls
  hset_after other f at true m calls bound gone carried =
      held api queue id n at _ calls bound
        (pending-hset_locked api reliable queue id m.server other f ∙ gone) carried
  hset_after other f at false m calls bound gone carried =
      left api queue id n proceed _ calls bound
        (pending-hset_locked api reliable queue id m.server other f ∙ gone)

  -- HSET on a locked key on the way to the next place.
  hset_next :
      (other : Text) (f : Fields) (at : Place W) (m : Node S W D) (calls : ℕ)
      → calls ≤ n + 1
      → view api m.server (key pending queue id) ≡ none
      → Carries api queue id n at (api.hset (key locked queue other) f m.server).0 calls
      → IsCounted api queue id n
          (if no_error (api.hset (key locked queue other) f m.server).1
            then at
            else finished proceed)
          (record m { server = (api.hset (key locked queue other) f m.server).0 })
          calls
  hset_next other f at m =
      hset_after other f at (no_error (api.hset (key locked queue other) f m.server).1) m

  stored_next :
      (new : KeyState) (job : Job W) (m : Node S W D) (calls : ℕ)
      → calls ≤ n + 1
      → view api m.server (key pending queue id) ≡ none
      → new ≢ pending
      → IsCounted api queue id n
          (store api database q queue id clock new job m).1
          (store api database q queue id clock new job m).0
          calls
  unfolding store
  stored_next new job m = hset_next id (all_fields (add_flat job)) (moving new job) m

  -- A step of a job that was read.
  passed :
      (job : Job W) (o : Option Instant) (m : Node S W D) (calls : ℕ)
      → IsCounted api queue id n (loaded job) m calls
      → IsCounted api queue id n
          (pass api database q queue id clock job o m).1
          (pass api database q queue id clock job o m).0
          calls
  unfolding pass holding
  passed job none m calls c = left api queue id n returned m calls c.bound (c.claimed refl)
  passed job (some t) m calls c = elim (Bool-cases (ltb t (clock 1))) [
    | inl late ↦ rw late (
        hset_next job.id (status_field "processing") (marked job) m calls c.bound (c.claimed refl)
          c.carried.1)
    | inr early ↦
        (let (x, under, counts) = c.carried.0 in
          rw early (
            freed_with api queue id n _ x _ calls c.bound
              (put_back api reliable queue id m.server x under) counts))
  ]

  -- A job that may be retried is stored with one more attempt, and within the limit.
  again_counted :
      (job : Job W) (k calls : ℕ)
      → calls ≡ suc k
      → job.retry_counter ≡ pos k
      → retriable q job ≡ true
      → Counts n calls (add_flat (retried_job (λ i. clock (i + 2)) job)).retry_counter
  unfolding retriable retried_job add_flat
  again_counted job k calls made counter again =
      let lt : k < n = ground (arith, again, counter, limit) in
      (rw counter (add64-pos_one k (omega arith)) ∙ ap pos (sym made), omega arith)

  move-server :
      (new : KeyState) (job : Job W) (m : Node S W D)
      → (move api database q queue id clock new job m).0.server
        ≡ (set_redis_key api queue id locked new m.server).0
  unfolding move
  move-server new job m = ground arith

  -- A step of a worker keeps the count.
  pub step-IsCounted :
      (at : Place W) (m : Node S W D) (calls : ℕ)
      → IsCounted api queue id n at m calls
      → IsCounted api queue id n
          (step api database q queue id clock at m).1
          (step api database q queue id clock at m).0
          (tally at calls)
  unfolding step holding conclude scan_struct
  step-IsCounted arriving m calls c =
      elim (Option-cases (view api m.server (key pending queue id))) [
        | inl gone ↦
            (let (failed, same) = claim_missing api reliable queue id m.server gone in
              rw (not_none (set_redis_key api queue id pending locked m.server).1 failed)
                (left api queue id n proceed _ calls c.bound (same (key pending queue id) ∙ gone)))
        | inr (x, found) ↦
            (let (accepted, gone, under) = claim_found api reliable queue id m.server x found in
              rw accepted
                (held api queue id n renamed _ calls c.bound gone (x, under, c.waiting x found)))
      ]
  step-IsCounted renamed m calls c =
      let (x, under, counts) = c.carried in
      held api queue id n stamped _ calls c.bound
        (pending-hset_locked api reliable queue id m.server id (locked_at_field (format (clock 0)))
          ∙ c.claimed refl)
        (
          record x { locked_at = format (clock 0) },
          locked-hset_locked api reliable queue id m.server (locked_at_field (format (clock 0)))
              ∙ rw under refl,
          counts,
        )
  step-IsCounted stamped m calls c =
      let (x, under, counts) = c.carried in
      rw (read_locked api reliable queue id m.server x under, step)
        (held api queue id n (loaded (scan_struct x)) _ calls c.bound (c.claimed refl)
          ((x, under, counts), counts))
  step-IsCounted (loaded job) m calls c = passed job (parse job.retry_after) m calls c
  step-IsCounted (marked job) m calls c =
      held api queue id n _ _ (suc calls) (omega (arith, c.carried.1)) (c.claimed refl)
        (calls, refl, c.carried)
  step-IsCounted (called done job) m calls c =
      stored_next _ _ m calls c.bound (c.claimed refl) (ground arith)
  step-IsCounted (called (errored x) job) m calls c = elim (Bool-cases (retriable q job)) [
    | inl again ↦ rw again (
        let (k, made, counts) = c.carried in
        freed_with api queue id n proceed (add_flat (retried_job (λ i. clock (i + 2)) job)) _ calls
          c.bound
          (view-hset_self api reliable (key pending queue id)
            (add_flat (retried_job (λ i. clock (i + 2)) job)) m.server)
          (again_counted job k calls made counts.0 again))
    | inr final ↦ rw final (stored_next _ _ m calls c.bound (c.claimed refl) (ground arith))
  ]
  step-IsCounted (called (unhandled x) job) m calls c =
      stored_next _ _ m calls c.bound (c.claimed refl) (ground arith)
  step-IsCounted (moving new job) m calls c = left api queue id n proceed _ calls c.bound (
      ap (λ (s : S). view api s (key pending queue id)) (move-server new job m)
      ∙ moved_off api reliable queue id m.server new c.carried (c.claimed refl))
  step-IsCounted (finished f) m calls c = freed api queue id n f m calls c.bound c.waiting
