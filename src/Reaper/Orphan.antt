-- ===== src/Reaper/Orphan.antt =====
-- A job whose worker is lost while it holds the lock: api/redis.go up to there, the reaper of
-- api/reaper.go, and the visits of other workers.
pub mod Recovered
use adele_queue.Base.{
  ℕ, suc, ◌+◌, ◌-◌, ◌*◌, ◌/◌, ◌≤◌, ◌<◌, ◌≡◌, refl, ◌∙◌, arith, true, false, String, none, some,
}
use adele_queue.Base.Int.{pos, ltb_ℤ, mul64-pos, add64-pos_one}
use adele_queue.Base.Text.{Text, text_eq_refl}
use adele_queue.Time.{Instant, second, seconds, seconds-pos, format, parse, add_duration}
use adele_queue.Handler.{Handler}
use adele_queue.Job.{Job, Hash, add_flat, scan_struct}
use adele_queue.Database.{Database}
use adele_queue.Queue.{Queue}
use adele_queue.Key.{pending, locked, key, ends}
use adele_queue.Key.Split.{NoColon, split-key}
use adele_queue.Redis.{RedisApi, IsReliable, Node, locked_at_field, get_redis_value}
use adele_queue.Redis.View.{view, moved}
use adele_queue.Redis.Scan.Claim.{locked_hash}
use adele_queue.Redis.Visits.{Serves, IsWaiting}
use adele_queue.Redis.Steps.{arriving, step, steps}
use adele_queue.Redis.Steps.Pending.{
  claim_found, read_locked, pending-hset_locked, locked-hset_locked,
}
use adele_queue.Memory.Attempts.Until.{world_after}
use adele_queue.Reaper.{
  since, lock_start, lock_timeout, expired_job, requeued_job, requeue_expired_lock,
}
use adele_queue.Reaper.Run.{Tally, reap_guarded, reap_expired, reap_job, reap_read, reap_key}
use adele_queue.Reaper.Expiry.{left, requeue_expired_lock_lem}

-- When a requeued job is due again.
requeued_due :
    {W : Type 0} (clock : ℕ → Instant) (job : Job W) (k : ℕ)
    → job.retry_counter ≡ pos k
    → k < 1000000000
    → (u : Instant) × (parse (requeued_job clock job).retry_after ≡ some u)
      × (u ≤ clock 0 + k * 5 * second)
unfolding requeued_job add_duration format
requeued_due clock job k counter small =
    rw (counter, mul64-pos k 5 (omega arith), seconds-pos (k * 5) (omega arith))
      ((clock 0 + k * 5 * 1000000000 - 0) / 1000000000 * 1000000000, refl, omega arith)

module _ {S W D : Type 0} (api : RedisApi S) (reliable : IsReliable api) (database : Database D)
    (q : Queue W) (queue id : Text) (name : String) (h : Handler W) (p : Text) (w : W) (n : ℕ)
    (serves : Serves q name h n) where
  -- The job stands under its locked key alone, locked at `start`.
  record IsOrphan (r c : ℕ) (start : Instant) (m : Node S W D) : Type 0 where
    hash : Hash
    gone : view api m.server (key pending queue id) ≡ none
    held : view api m.server (key locked queue id) ≡ some hash
    id_kept : hash.id ≡ id
    name_kept : hash.name ≡ name
    payload_kept : hash.payload ≡ some p
    retries : hash.retry ≡ true
    counter : hash.retry_counter ≡ pos c
    own_timeout : hash.lock_for ≡ pos 0
    locked_since : parse hash.locked_at ≡ some start
    world_is : m.world ≡ world_after h (some p) r w

  -- A worker that is lost after the RENAME and the stamp of the lock.
  lost-IsOrphan :
      (r c : ℕ) (t : Instant) (clock : ℕ → Instant) (m : Node S W D)
      → (d : IsWaiting api queue id name h p w r c t m) → d.hash.lock_for ≡ pos 0
      → IsOrphan r c
          (clock 0 / second * second)
          (steps api database q queue id clock 2 arriving m).0
  unfolding steps step format
  lost-IsOrphan r c t clock m d none_set =
      let (accepted, gone, under) = claim_found api reliable queue id m.server d.hash d.held in
      let f = locked_at_field (format (clock 0)) in
      rw (accepted, steps)
        (record {
          hash = locked_hash clock d.hash;
          gone = pending-hset_locked api reliable queue id _ id f ∙ gone;
          held = locked-hset_locked api reliable queue id _ f ∙ rw under refl;
          id_kept = d.id_kept;
          name_kept = d.name_kept;
          payload_kept = d.payload_kept;
          retries = d.retries;
          counter = d.counter;
          own_timeout = none_set;
          locked_since = refl;
          world_is = d.world_is;
        })

  -- A locked key leads the reaper to its job.
  reap_key_read :
      (clock : ℕ → Instant) (t : Tally) (m : Node S W D)
      → NoColon queue
      → NoColon id
      → reap_key api database q clock (key locked queue id) m t
        ≡ reap_read api database q queue id clock
            (get_redis_value api queue id locked m.server)
            m
            (record t { scanned = t.scanned + 1 })
  unfolding ends reap_key reap_read
  reap_key_read clock t m plain plain_id = rw (split-key locked queue id plain plain_id) refl

  expired :
      (limit start : ℕ) (clock : ℕ → Instant) (job : Job W)
      → q.lock_timeout ≡ pos limit
      → job.lock_for ≡ pos 0
      → limit < 9223372036
      → start + limit * second ≤ clock 0
      → ltb_ℤ (since (clock 0) start) (seconds (lock_timeout q job)) ≡ false
  unfolding since lock_timeout
  expired limit start clock job set own small old =
      rw (own, set, seconds-pos limit small) (ground arith)

  started :
      (r c start : ℕ) (m : Node S W D) (d : IsOrphan r c start m)
      → lock_start (scan_struct {W = W} d.hash) ≡ some start
  unfolding lock_start scan_struct
  started r c start m d = rw (d.locked_since, lock_start) refl

  -- The counter after an expiry.
  counted :
      (r c start : ℕ) (m : Node S W D) (d : IsOrphan r c start m)
      → suc c < n
      → (expired_job
          (lock_timeout q (scan_struct {W = W} d.hash))
          (scan_struct {W = W} d.hash)).retry_counter
        ≡ pos (suc c)
  unfolding expired_job scan_struct
  counted r c start m d lt = rw d.counter (add64-pos_one c (omega (arith, serves.small)))

  attempt_left :
      (r c start : ℕ) (m : Node S W D) (d : IsOrphan r c start m)
      → suc c < n
      → left q (lock_timeout q (scan_struct {W = W} d.hash)) (scan_struct {W = W} d.hash) ≡ true
  unfolding expired_job scan_struct
  attempt_left r c start m d lt =
      rw (d.retries, d.counter, serves.limit, add64-pos_one c (omega (arith, serves.small)))
        (ground arith)

  -- The reaper at an orphan whose lock has expired: the job waits again, with one attempt less.
  reaped :
      (r c start limit : ℕ) (clock : ℕ → Instant) (t : Tally) (m : Node S W D)
      → q.lock_timeout ≡ pos limit
      → limit < 9223372036
      → start + limit * second ≤ clock 0
      → (d : IsOrphan r c start m)
      → (reap_read api database q queue id clock
          (get_redis_value api queue id locked m.server)
          m
          t).0
        ≡ (requeue_expired_lock api database q queue id
            (λ i. clock (i + 1))
            (scan_struct d.hash)
            (lock_timeout q (scan_struct {W = W} d.hash))
            m).0
  unfolding scan_struct reap_read reap_job reap_expired
  reaped r c start limit clock t m set small old d =
      rw
        (
          read_locked api reliable queue id m.server {W = W} d.hash d.held,
          reap_read,
          started r c start m d,
          reap_job,
          expired limit start clock (scan_struct d.hash) set d.own_timeout small old,
          reap_expired,
          reliable.exists_accepted,
          d.gone,
          reap_guarded,
        )
        refl

  reaped-IsWaiting :
      (r c start limit : ℕ) (clock : ℕ → Instant) (t : Tally) (m : Node S W D)
      → q.lock_timeout ≡ pos limit
      → limit < 9223372036
      → start + limit * second ≤ clock 0
      → suc c < n
      → IsOrphan r c start m
      → (u : Instant) × IsWaiting api queue id name h p w r
          (suc c)
          u
          (reap_read api database q queue id clock
            (get_redis_value api queue id locked m.server)
            m
            t).0
        × (u ≤ clock 1 + suc c * 5 * second)
  unfolding moved add_flat expired_job requeued_job scan_struct
  reaped-IsWaiting r c start limit clock t m set small old lt d =
      let job : Job W =
        expired_job (lock_timeout q (scan_struct {W = W} d.hash)) (scan_struct d.hash) in
      let stale : Job W = requeued_job (λ i. clock (i + 1)) job in
      let (keys, outcome, rows, world) =
        requeue_expired_lock_lem api reliable database q queue id (λ i. clock (i + 1))
          (scan_struct d.hash) (lock_timeout q (scan_struct {W = W} d.hash)) m in
      let (u, at_u, le) =
        requeued_due (λ i. clock (i + 1)) job (suc c) (counted r c start m d lt)
          (omega (arith, serves.small)) in
      rw (reaped r c start limit clock t m set small old d) (
        u,
        record {
          hash = add_flat stale;
          held =
              keys (key pending queue id)
              ∙ rw (attempt_left r c start m d lt, text_eq_refl (key pending queue id)) refl;
          id_kept = d.id_kept;
          name_kept = d.name_kept;
          payload_kept = rw d.payload_kept refl;
          retries = d.retries;
          counter = counted r c start m d lt;
          due = at_u;
          world_is = world ∙ d.world_is;
        },
        le,
      )
