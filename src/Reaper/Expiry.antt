-- ===== src/Reaper/Expiry.antt =====
-- What the reaper of api/reaper.go does to a job whose lock has expired.
use adele_queue.Base.{
  ℕ, suc, ◌+◌, ◌<◌, ◌≡◌, refl, arith, Bool, true, false, ◌&&◌, none, some, Bool-cases, inl, inr,
  if◌then◌else◌,
}
use adele_queue.Base.Int.{ℤ, pos, ltb_ℤ, add64-pos_one}
use adele_queue.Base.Text.{Text, text_eq}
use adele_queue.Time.{Instant}
use adele_queue.Job.{Job, Hash, add_flat, row_of}
use adele_queue.Database.{Database, failed_jobs}
use adele_queue.Queue.{Queue}
use adele_queue.Key.{KeyState, pending, locked, key}
use adele_queue.Key
use adele_queue.Redis.{RedisApi, IsReliable, Node, all_fields, set_redis_key, move_job}
use adele_queue.Redis.View.{moved, view, view-move_job}
use adele_queue.Redis.Handle.{retriable}
use adele_queue.Reaper.{
  requeued, permafailed, done, expired_job, requeued_job, permafailed_job, move_expired,
  requeue_expired_lock,
}
use adele_queue.Reaper.Run.{Tally, count_error, reap_expired}

-- Whether one attempt more is left after an expiry.
abbrev pub left : {W : Type 0} → Queue W → ℤ → Job W → Bool
left q timeout job =
    (expired_job timeout job).retry && ltb_ℤ (expired_job timeout job).retry_counter q.max_attempts

module _ {S W D : Type 0} (api : RedisApi S) (reliable : IsReliable api) (database : Database D)
    (q : Queue W) (queue id : Text) (clock : ℕ → Instant) where
  -- Where the server carries out its commands, the reaper's move is the worker's, and is made.
  move_expired_lem :
      (new : KeyState) (job : Job W) (s : S)
      → move_expired api database q queue id new job s ≡ ((move_job api queue id new job s).0, done)
  unfolding move_expired move_job set_redis_key
  move_expired_lem new job s = ground (
    arith,
    reliable.hset_accepted (key locked queue id) (all_fields (add_flat job)) s,
    (view-move_job api reliable queue id new job s).1,
  )

  -- On a server that carries out its commands, an expired lock is resolved in one of two ways.
  -- Where an attempt is left, the job moves to its pending key, and no row is written. Where none
  -- is left, it moves to its failed key, and where a database is wired, its row goes to
  -- `failed_jobs`. No other key changes, and no handler runs.
  pub requeue_expired_lock_lem :
      (job : Job W) (timeout : ℤ) (n : Node S W D)
      → let j = expired_job timeout job in
        let (n', o) = requeue_expired_lock api database q queue id clock job timeout n in
        ((k : Text)
          → view api n'.server k ≡ (
              if left q timeout job
              then moved
                  (key locked queue id)
                  (key pending queue id)
                  (add_flat (requeued_job clock j))
                  (view api n.server)
                  k
              else moved
                  (key locked queue id)
                  (key Key.failed queue id)
                  (add_flat (permafailed_job clock j))
                  (view api n.server)
                  k))
        × (o ≡ some (if left q timeout job then requeued else permafailed))
        × (n'.db ≡ (
            if left q timeout job
            then n.db
            else if q.db
            then (database.insert failed_jobs (row_of (permafailed_job clock j)) n.db).0
            else n.db))
        × (n'.world ≡ n.world)
  unfolding requeue_expired_lock
  requeue_expired_lock_lem job timeout n = elim (Bool-cases (left q timeout job)) [
    | inl again ↦
        rw (again, move_expired_lem pending (requeued_job clock (expired_job timeout job)) n.server)
          (
            (view-move_job api reliable queue id pending
                (requeued_job clock (expired_job timeout job)) n.server).0,
            refl,
            refl,
            refl,
          )
    | inr final ↦
        rw
          (
            final,
            move_expired_lem Key.failed (permafailed_job clock (expired_job timeout job)) n.server,
          )
          (
            (view-move_job api reliable queue id Key.failed
                (permafailed_job clock (expired_job timeout job)) n.server).0,
            refl,
            refl,
            refl,
          )
  ]

  -- On a server that carries out its commands, where a pending copy of a job with an expired lock
  -- exists, as `handleRedisJob` leaves it on a retry, the reaper deletes the locked key, counts a
  -- duplicate, and does nothing else.
  pub reap_expired_leaked :
      (job : Job W) (h : Hash) (n : Node S W D) (t : Tally)
      → view api n.server (key pending queue id) ≡ some h
      → let (n', t') = reap_expired api database q queue id clock job n t in
        ((k : Text)
          → view api n'.server k
            ≡ (if text_eq (key locked queue id) k then none else view api n.server k))
        × (n'.world ≡ n.world)
        × (n'.db ≡ n.db)
        × (t' ≡ record t { dupes = t.dupes + 1 })
  unfolding reap_expired count_error
  reap_expired_leaked job h n t e =
      rw (reliable.exists_accepted, e, reap_expired)
        (
          λ k.
              api.get-del (key locked queue id) n.server
                (reliable.del_accepted (key locked queue id) n.server) k,
          refl,
          refl,
          rw (reliable.del_accepted),
        )

-- For a job with `Retry`, the same counter that leaves the worker an attempt may leave the reaper
-- none: at one below `MaxAttempts` a failing handler is retried, and an expired lock is final. The
-- counter is less than the greatest int.
pub reaper_stricter :
    {W : Type 0} (q : Queue W) (timeout : ℤ) (job : Job W) (c : ℕ)
    → c < 9223372036854775807
    → job.retry ≡ true
    → job.retry_counter ≡ pos c
    → q.max_attempts ≡ pos (suc c)
    → (retriable q job ≡ true) × (left q timeout job ≡ false)
unfolding retriable expired_job
reaper_stricter q timeout job c small retry counter limit = (
  rw (retry, counter, limit) (ground arith),
  rw (retry, counter, limit, add64-pos_one c small) (ground arith),
)
