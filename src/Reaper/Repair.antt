-- ===== src/Reaper/Repair.antt =====
-- The reaper of api/reaper.go after a retry by `handleRedisJob` of api/redis.go.
use adele_queue.Base.{
  ℕ, ◌≡◌, ◌∙◌, ap, refl, true, false, none, some, if◌then◌else◌, ◌+◌, Bool-cases, inl, inr,
}
use adele_queue.Base.Text.{Text, text_eq, text_eq_refl}
use adele_queue.Time.{Instant}
use adele_queue.Job.{Job, Hash, add_flat}
use adele_queue.Database.{Database}
use adele_queue.Queue.{Queue}
use adele_queue.Key.{pending, locked, key}
use adele_queue.Redis.{RedisApi, IsReliable, Node}
use adele_queue.Redis.View.{stored, view}
use adele_queue.Redis.Handle.{errored, call_handler, retried_job, retriable, handle_redis_job}
use adele_queue.Redis.Handle.Transitions.{transition, handle_redis_job-view}
use adele_queue.Reaper.Run.{Tally, reap_expired}
use adele_queue.Reaper.Expiry.{reap_expired_leaked}

module _ {S W D : Type 0} (api : RedisApi S) (reliable : IsReliable api) (database : Database D)
    (q : Queue W) (queue id : Text) (clock : ℕ → Instant) (job : Job W) (n : Node S W D) where
  abbrev retried : Hash
  retried = add_flat (retried_job clock job)

  abbrev handled : Node S W D
  handled = handle_redis_job api database q queue job id clock n

  transition_pending :
      (e : Text)
      → retriable q job ≡ true
      → transition q queue id clock (errored e) job (view api n.server) (key pending queue id)
        ≡ some retried
  unfolding transition stored
  transition_pending e again = rw (again, text_eq_refl (key pending queue id)) refl

  transition_elsewhere :
      (e k : Text)
      → retriable q job ≡ true
      → text_eq (key locked queue id) k ≡ false
      → transition q queue id clock (errored e) job (view api n.server) k
        ≡ stored (key pending queue id) retried (view api n.server) k
  unfolding transition stored
  transition_elsewhere e k again other = rw (again, other) refl

  handled_view :
      (e k : Text)
      → job.id ≡ id
      → (call_handler q job n.world).0 ≡ errored e
      → view api handled.server k
        ≡ transition q queue id clock (errored e) job (view api n.server) k
  handled_view e k same fails =
      handle_redis_job-view api reliable database q queue id clock job n same k
      ∙ ap (λ v. transition q queue id clock v job (view api n.server) k) fails

  -- On a server that carries out its commands, a job whose hash holds the id that its key names,
  -- whose handler failed and that may be retried stands under two keys; once its lock has expired,
  -- the reaper resolves this. The run and the reaper together leave the retried job under its
  -- pending key, nothing under its locked one, and every other key as it was before the run, and
  -- the reaper counts one duplicate.
  pub reap_expired_of_retry :
      (e : Text) (stale : Job W) (readings : ℕ → Instant) (t : Tally)
      → job.id ≡ id
      → (call_handler q job n.world).0 ≡ errored e
      → retriable q job ≡ true
      → let (n', t') = reap_expired api database q queue id readings stale handled t in
        ((k : Text)
          → view api n'.server k ≡ (
              if text_eq (key locked queue id) k
              then none
              else stored (key pending queue id) retried (view api n.server) k))
        × (t' ≡ record t { dupes = t.dupes + 1 })
  reap_expired_of_retry e stale readings t same fails again =
      let r =
        reap_expired_leaked api reliable database q queue id readings stale retried handled t
          (handled_view e (key pending queue id) same fails ∙ transition_pending e again) in
      (
        λ k. elim (Bool-cases (text_eq (key locked queue id) k)) [
          | inl here ↦ r.0 k ∙ rw here refl
          | inr other ↦
              r.0 k ∙ rw other (handled_view e k same fails ∙ transition_elsewhere e k again other)
        ],
        r.3,
      )
