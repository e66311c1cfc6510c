-- ===== src/Conserved/Labels/Reaper.antt =====
-- The label of a job through `runReaperTick` and `requeueExpiredLock` of api/reaper.go.
use adele_queue.Base.{
  ℕ, ◌+◌, ◌&&◌, ltb, length, Option, none, some, Bool-cases, Option-cases, inl, inr,
}
use adele_queue.Base.Int.{ℤ, ltb_ℤ}
use adele_queue.Base.Text.{Text}
use adele_queue.Time.{Instant, seconds}
use adele_queue.Job.{Job, add_flat, scan_struct}
use adele_queue.Database.{Database}
use adele_queue.Queue.{Queue}
use adele_queue.Key.{KeyState, pending, locked, key, split, ends, read_key}
use adele_queue.Key
use adele_queue.Key.Split.{NoColon}
use adele_queue.Key.Distinct.{read_key-NoColon}
use adele_queue.Redis.{RedisApi, IsReliable, Node, all_fields, get_redis_value}
use adele_queue.Redis.View.{view}
use adele_queue.Redis.Steps.Pending.{read_locked}
use adele_queue.Reaper.{
  expired_job, requeued_job, permafailed_job, since, lock_start, lock_timeout, move_expired,
  requeue_expired_lock,
}
use adele_queue.Reaper.Run.{Tally, reap_guarded, reap_expired, reap_job, reap_read, reap_key}
use adele_queue.Conserved.Labels.{Labels, IsLabelled, set_redis_key-IsLabelled, del-IsLabelled}
use adele_queue.Conserved.Labels.Worker.{Carries, scan_struct-Carries, hset_all-IsLabelled}

module _ {S W D : Type 0} (api : RedisApi S) (reliable : IsReliable api) (label : Labels)
    (database : Database D) (q : Queue W) (c i : Text) (hc : NoColon c) (hi : NoColon i)
    (clock : ℕ → Instant) where
  move_expired-IsLabelled :
      (new : KeyState) (job : Job W) (s : S)
      → Carries label c i job
      → IsLabelled api label s
      → IsLabelled api label (move_expired api database q c i new job s).0
  unfolding move_expired
  move_expired-IsLabelled new job s b l =
      rw (reliable.hset_accepted (key locked c i) (all_fields (add_flat job)) s, move_expired)
        (set_redis_key-IsLabelled api reliable label c i hc hi
          (api.hset (key locked c i) (all_fields (add_flat job)) s).0 locked new
          (hset_all-IsLabelled api reliable label c i hc hi locked job s b l))

  requeue_expired_lock-IsLabelled :
      (job : Job W) (timeout : ℤ) (n : Node S W D)
      → Carries label c i job
      → IsLabelled api label n.server
      → IsLabelled api label (requeue_expired_lock api database q c i clock job timeout n).0.server
  unfolding requeue_expired_lock expired_job requeued_job permafailed_job
  requeue_expired_lock-IsLabelled job timeout n b l =
      let j = expired_job timeout job in
      elim (Bool-cases (j.retry && ltb_ℤ j.retry_counter q.max_attempts)) [
        | inl left ↦ rw left (
            move_expired-IsLabelled pending (requeued_job clock j) n.server
              (record {
                id_kept = b.id_kept;
                name_kept = b.name_kept;
                payload_kept = b.payload_kept;
              })
              l)
        | inr last ↦ rw last (
            move_expired-IsLabelled Key.failed (permafailed_job clock j) n.server
              (record {
                id_kept = b.id_kept;
                name_kept = b.name_kept;
                payload_kept = b.payload_kept;
              })
              l)
      ]

module _ {S W D : Type 0} (api : RedisApi S) (reliable : IsReliable api) (label : Labels)
    (database : Database D) (q : Queue W) (clock : ℕ → Instant) where
  module _ (c i : Text) (hc : NoColon c) (hi : NoColon i) where
    reap_expired-IsLabelled :
        (job : Job W) (n : Node S W D) (t : Tally)
        → Carries label c i job
        → IsLabelled api label n.server
        → IsLabelled api label (reap_expired api database q c i clock job n t).0.server
    unfolding reap_expired reap_guarded
    reap_expired-IsLabelled job n t b l =
        elim (Option-cases (view api n.server (key pending c i))) [
          | inl gone ↦
              rw (reliable.exists_accepted (key pending c i) n.server, gone, reap_guarded)
                (requeue_expired_lock-IsLabelled api reliable label database q c i hc hi
                  (λ k. clock (k + 1)) job (lock_timeout q job) n b l)
          | inr (g, e) ↦
              rw (reliable.exists_accepted (key pending c i) n.server, e, reap_guarded)
                (del-IsLabelled api reliable label (key locked c i) n.server l)
        ]

    reap_job-IsLabelled :
        (job : Job W) (o : Option Instant) (n : Node S W D) (t : Tally)
        → Carries label c i job
        → IsLabelled api label n.server
        → IsLabelled api label (reap_job api database q c i clock job o n t).0.server
    unfolding reap_job
    reap_job-IsLabelled job none n t b l = l
    reap_job-IsLabelled job (some start) n t b l =
        elim (Bool-cases (ltb_ℤ (since (clock 0) start) (seconds (lock_timeout q job)))) [
          | inl young ↦ rw young l
          | inr old ↦ rw old (reap_expired-IsLabelled job n t b l)
        ]

    -- HGETALL of a missing key is the zero job, which has no moment of its lock.
    reap_read-IsLabelled :
        (n : Node S W D) (t : Tally)
        → IsLabelled api label n.server
        → IsLabelled api label
            (reap_read api database q c i clock
              (get_redis_value api c i locked n.server)
              n
              t).0.server
    unfolding reap_read get_redis_value lock_start scan_struct reap_job
    reap_read-IsLabelled n t l = elim (Option-cases (view api n.server (key locked c i))) [
      | inl missing ↦ rw (reliable.hgetall_accepted (key locked c i) n.server, missing, reap_read) l
      | inr (g, there) ↦
          rw (read_locked api reliable c i n.server {W = W} g there, reap_read)
            (reap_job-IsLabelled (scan_struct g) (lock_start (scan_struct {W = W} g)) n t
              (scan_struct-Carries label c i g (l.bears locked c i hc hi g there)) l)
    ]

  pub reap_key-IsLabelled :
      (k : Text) (n : Node S W D) (t : Tally)
      → IsLabelled api label n.server
      → IsLabelled api label (reap_key api database q clock k n t).0.server
  unfolding reap_key read_key
  reap_key-IsLabelled k n t l = elim (Bool-cases (ltb (length (split k)) 4)) [
    | inl short ↦ rw short l
    | inr long ↦ elim (Option-cases (ends (split k))) [
      | inl e ↦ rw (long, e) l
      | inr ((c, i), e) ↦
          let (hc, hi) = read_key-NoColon k c i e in
          rw (long, e) (reap_read-IsLabelled c i hc hi n (record t { scanned = t.scanned + 1 }) l)
    ]
  ]
