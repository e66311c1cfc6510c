-- ===== src/Dispatch/Served.antt =====
-- From `Dispatch` of api/queue.go through the scan of api/redis.go to the end of a job's run.
pub mod Stuck
use mathlib.Core.Path.{fun_ext}
use adele_queue.Base.{ℕ, ◌+◌, ◌*◌, ◌/◌, ◌<◌, ◌≡◌, refl, ap, ◌∙◌, true, some}
use adele_queue.Base.Text.{Text, text_eq_refl}
use adele_queue.Time.{Instant, unset, format, parse, second}
use adele_queue.Job.{Job, Hash, add_flat, scan_struct}
use adele_queue.Database.{Database}
use adele_queue.Queue.{Queue, contains}
use adele_queue.Key.{pending, locked, key, read_key, IsLowerTable}
use adele_queue.Key.Split.{NoColon}
use adele_queue.Redis.{RedisApi, IsReliable, Node}
use adele_queue.Redis.View.{Keyspace, moved, stored, view, moved-stored}
use adele_queue.Redis.Handle.{call_handler}
use adele_queue.Redis.Handle.Transitions.{transition}
use adele_queue.Redis.Scan.{proceed, claim, scan_key}
use adele_queue.Redis.Scan.Claim.{locked_hash, claim_due}
use adele_queue.Stamping.{stamp_job}
use adele_queue.Dispatch.{redis_job, dispatch_redis}
use adele_queue.Dispatch.Keyed.{dispatch_redis_lem}

module _ {S W D : Type 0} (api : RedisApi S) (reliable : IsReliable api) (database : Database D)
    (lower : ℕ → ℕ) (table : IsLowerTable lower) (q : Queue W) (id : Text) (now : Instant)
    (job : Job W) (n : Node S W D) where
  -- The job as it is stored, and its hash.
  abbrev sent : Job W
  sent = redis_job api lower q id now job

  abbrev hash : Hash
  hash = add_flat sent

  -- The node after the dispatch.
  abbrev dispatched : Node S W D
  dispatched = record n { server = (dispatch_redis api lower q id now job n.server).0 }

  sent_due : job.dispatch_at ≡ unset → parse hash.retry_after ≡ some (now / second * second)
  unfolding redis_job stamp_job add_flat format
  sent_due e = rw e refl

  sent_id : hash.id ≡ id
  unfolding redis_job stamp_job add_flat
  sent_id = refl

  scan_key_read :
      (clock : ℕ → Instant)
      → read_key (key pending sent.queue id) ≡ some (sent.queue, id)
      → scan_key api database q (key pending sent.queue id) clock dispatched
        ≡ claim api database q sent.queue id clock dispatched
  unfolding scan_key
  scan_key_read clock e = rw (e, scan_key) refl

  -- The keyspace after the dispatch.
  abbrev Sent : Type 0
  Sent =
      (k : Text)
      → view api dispatched.server k ≡ stored (key pending sent.queue id) hash (view api n.server) k

  held : Sent → view api dispatched.server (key pending sent.queue id) ≡ some hash
  unfolding stored
  held e = e (key pending sent.queue id) ∙ rw (text_eq_refl (key pending sent.queue id))

  moved_sent :
      (clock : ℕ → Instant)
      → Sent
      → moved
          (key pending sent.queue id)
          (key locked sent.queue id)
          (locked_hash clock hash)
          (view api dispatched.server)
        ≡ moved
            (key pending sent.queue id)
            (key locked sent.queue id)
            (locked_hash clock hash)
            (view api n.server)
  moved_sent clock e =
      ap
        (λ (ks : Keyspace).
          moved (key pending sent.queue id) (key locked sent.queue id) (locked_hash clock hash) ks)
        (fun_ext e)
      ∙ fun_ext (
          moved-stored (key pending sent.queue id) (key locked sent.queue id)
            (locked_hash clock hash) hash (view api n.server))

  same_view :
      (clock : ℕ → Instant)
      → Sent
      → (k : Text)
      → let run = scan_struct {W = W} (locked_hash clock hash) in
        transition q sent.queue id
          (λ i. clock (i + 2))
          (call_handler q run n.world).0
          run
          (moved
            (key pending sent.queue id)
            (key locked sent.queue id)
            (locked_hash clock hash)
            (view api dispatched.server))
          k
        ≡ transition q sent.queue id
            (λ i. clock (i + 2))
            (call_handler q run n.world).0
            run
            (moved
              (key pending sent.queue id)
              (key locked sent.queue id)
              (locked_hash clock hash)
              (view api n.server))
            k
  same_view clock e k =
      let run = scan_struct {W = W} (locked_hash clock hash) in
      ap
        (λ (ks : Keyspace).
          transition q sent.queue id (λ i. clock (i + 2)) (call_handler q run n.world).0 run ks k)
        (moved_sent clock e)

  -- A job without a schedule that is dispatched on the redis backend, and whose key a worker then
  -- finds in a later second, has run: the worker goes on, and the keyspace has changed by nothing
  -- but the transition of the handler's verdict, from the one in which the job, stamped with its
  -- lock, stands under its locked key. The server carries out its commands, the default channel is
  -- a configured one, and neither it nor the id holds a colon.
  pub scan_key-dispatch_redis :
      (clock : ℕ → Instant)
      → contains q.queue_channels q.queue_channel_default ≡ true
      → NoColon q.queue_channel_default
      → NoColon id
      → job.dispatch_at ≡ unset
      → now / second * second < clock 1
      → let (n', flow) = scan_key api database q (key pending sent.queue id) clock dispatched in
        let run = scan_struct {W = W} (locked_hash clock hash) in
        ((k : Text)
          → view api n'.server k
            ≡ transition q sent.queue id
                (λ i. clock (i + 2))
                (call_handler q run n.world).0
                run
                (moved
                  (key pending sent.queue id)
                  (key locked sent.queue id)
                  (locked_hash clock hash)
                  (view api n.server))
                k)
        × (flow ≡ proceed)
  scan_key-dispatch_redis clock listed plain hid at_once due =
      let keyed =
        dispatch_redis_lem api reliable lower table q id now job n.server listed plain hid in
      let ran =
        claim_due api reliable database q sent.queue id clock hash (now / second * second)
          dispatched (held keyed.0) (sent_due at_once) due sent_id in
      rw (scan_key_read clock keyed.3) (λ k. ran.0 k ∙ same_view clock keyed.0 k, ran.1)
