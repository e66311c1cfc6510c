-- ===== src/Conserved/Operations.antt =====
-- Dispatches, scans and reaps in any order, each of them whole (api/queue.go, api/redis.go,
-- api/reaper.go).
use adele_queue.Base.{
  Bool, ℕ, ◌+◌, ◌≡◌, ◌∙◌, refl, sym, ◌&&◌, ltb, length, Option, none, some, Bool-cases,
  Option-cases, inl, inr,
}
use adele_queue.Base.Int.{ℤ, ltb_ℤ}
use adele_queue.Base.Text.{Text, text_eq_refl}
use adele_queue.Time.{Instant, seconds}
use adele_queue.Job.{Job, Hash, add_flat}
use adele_queue.Database.{Database}
use adele_queue.Queue.{Queue, contains}
use adele_queue.Key.{KeyState, pending, locked, key, split, ends, read_key, IsLowerTable}
use adele_queue.Key
use adele_queue.Key.Split.{NoColon}
use adele_queue.Key.Distinct.{read_key-NoColon}
use adele_queue.Redis.{
  RedisApi, no_such_key, refused, IsReliable, Node, Reply, value, error, all_fields,
  get_redis_value,
}
use adele_queue.Redis.View.{view, stored, written_all}
use adele_queue.Redis.Scan.{scan_key}
use adele_queue.Reaper.{
  expired_job, requeued_job, permafailed_job, since, lock_start, lock_timeout, move_expired,
  requeue_expired_lock,
}
use adele_queue.Reaper.Run.{Tally, reap_guarded, reap_expired, reap_job, reap_read, reap_key}
use adele_queue.Stamping.{stamp_job}
use adele_queue.Dispatch.{redis_job, dispatch_redis}
use adele_queue.Dispatch.Keyed.{dispatch_redis_lem}
use adele_queue.Conserved.{
  IsHeld, Keeps, Keeps-refl, Keeps-trans, hset-Keeps, set_redis_key-Keeps, del-Keeps,
}
use adele_queue.Conserved.Worker.{scan_key-Keeps}
use adele_queue.Conserved.Labels.{Labels, Bears, IsLabelled, hset-IsLabelled}
use adele_queue.Conserved.Labels.Worker.{scan_key-IsLabelled}
use adele_queue.Conserved.Labels.Reaper.{reap_key-IsLabelled}

module _ {S W D : Type 0} (api : RedisApi S) (reliable : IsReliable api) (database : Database D)
    (q : Queue W) (c i : Text) (hc : NoColon c) (hi : NoColon i) (clock : ℕ → Instant) where
  move_expired-Keeps :
      (new : KeyState) (job : Job W) (s : S)
      → Keeps api s (move_expired api database q c i new job s).0
  unfolding move_expired
  move_expired-Keeps new job s =
      rw (reliable.hset_accepted (key locked c i) (all_fields (add_flat job)) s, move_expired)
        (Keeps-trans api (hset-Keeps api reliable (key locked c i) (all_fields (add_flat job)) s) (
          set_redis_key-Keeps api reliable c i hc hi
            (api.hset (key locked c i) (all_fields (add_flat job)) s).0 locked new))

  requeue_expired_lock-Keeps :
      (job : Job W) (timeout : ℤ) (n : Node S W D)
      → Keeps api n.server (requeue_expired_lock api database q c i clock job timeout n).0.server
  unfolding requeue_expired_lock
  requeue_expired_lock-Keeps job timeout n =
      let j = expired_job timeout job in
      elim (Bool-cases (j.retry && ltb_ℤ j.retry_counter q.max_attempts)) [
        | inl left ↦ rw left (move_expired-Keeps pending (requeued_job clock j) n.server)
        | inr last ↦ rw last (move_expired-Keeps Key.failed (permafailed_job clock j) n.server)
      ]

module _ {S W D : Type 0} (api : RedisApi S) (reliable : IsReliable api) (database : Database D)
    (q : Queue W) (clock : ℕ → Instant) where
  module _ (c i : Text) (hc : NoColon c) (hi : NoColon i) where
    reap_expired-Keeps :
        (job : Job W) (n : Node S W D) (t : Tally)
        → Keeps api n.server (reap_expired api database q c i clock job n t).0.server
    unfolding reap_expired reap_guarded
    reap_expired-Keeps job n t = elim (Option-cases (view api n.server (key pending c i))) [
      | inl gone ↦
          rw (reliable.exists_accepted (key pending c i) n.server, gone, reap_guarded)
            (requeue_expired_lock-Keeps api reliable database q c i hc hi (λ k. clock (k + 1)) job
              (lock_timeout q job) n)
      | inr (g, e) ↦
          rw (reliable.exists_accepted (key pending c i) n.server, e, reap_guarded)
            (del-Keeps api reliable c i hc hi n.server g e)
    ]

    reap_job-Keeps :
        (job : Job W) (o : Option Instant) (n : Node S W D) (t : Tally)
        → Keeps api n.server (reap_job api database q c i clock job o n t).0.server
    unfolding reap_job
    reap_job-Keeps job none n t = Keeps-refl api n.server
    reap_job-Keeps job (some start) n t =
        elim (Bool-cases (ltb_ℤ (since (clock 0) start) (seconds (lock_timeout q job)))) [
          | inl young ↦ rw young (Keeps-refl api n.server)
          | inr old ↦ rw old (reap_expired-Keeps job n t)
        ]

    reap_read-Keeps :
        (r : Reply (Job W)) (n : Node S W D) (t : Tally)
        → Keeps api n.server (reap_read api database q c i clock r n t).0.server
    unfolding reap_read
    reap_read-Keeps (error no_such_key) n t = Keeps-refl api n.server
    reap_read-Keeps (error refused) n t = Keeps-refl api n.server
    reap_read-Keeps (value job) n t = reap_job-Keeps job (lock_start job) n t

  reap_key-Keeps :
      (k : Text) (n : Node S W D) (t : Tally)
      → Keeps api n.server (reap_key api database q clock k n t).0.server
  unfolding reap_key read_key
  reap_key-Keeps k n t = elim (Bool-cases (ltb (length (split k)) 4)) [
    | inl short ↦ rw short (Keeps-refl api n.server)
    | inr long ↦ elim (Option-cases (ends (split k))) [
      | inl e ↦ rw (long, e) (Keeps-refl api n.server)
      | inr ((c, i), e) ↦
          let (hc, hi) = read_key-NoColon k c i e in
          rw (long, e)
            (reap_read-Keeps c i hc hi (get_redis_value api c i locked n.server) n
              (record t { scanned = t.scanned + 1 }))
    ]
  ]

-- One operation of any process of the application, with its queue. A dispatch is given an id that
-- no other job of its channel has, so that the job's name and payload can be told by its label.
pub data Operation {S W D : Type 0} (api : RedisApi S) (lower : ℕ → ℕ) (database : Database D)
    (label : Labels) : Node S W D → Node S W D → Type 0 where
  dispatches :
      (q : Queue W) (id : Text) (now : Instant) (job : Job W) (n : Node S W D)
      → NoColon (redis_job api lower q id now job).queue
      → NoColon id
      → Bears label
          (redis_job api lower q id now job).queue
          id
          (add_flat (redis_job api lower q id now job))
      → Operation api lower database label n
          (record n { server = (dispatch_redis api lower q id now job n.server).0 })
  scans :
      (q : Queue W) (k : Text) (clock : ℕ → Instant) (n : Node S W D)
      → Operation api lower database label n (scan_key api database q k clock n).0
  reaps :
      (q : Queue W) (k : Text) (clock : ℕ → Instant) (t : Tally) (n : Node S W D)
      → Operation api lower database label n (reap_key api database q clock k n t).0

-- Any number of them, the last one outermost.
pub data Operations {S W D : Type 0} (api : RedisApi S) (lower : ℕ → ℕ) (database : Database D)
    (label : Labels) (n : Node S W D) : Node S W D → Type 0 where
  no_operation : Operations api lower database label n n
  and_then :
      {n' n'' : Node S W D}
      → Operations api lower database label n n'
      → Operation api lower database label n' n''
      → Operations api lower database label n n''

module _ {S W D : Type 0} (api : RedisApi S) (reliable : IsReliable api) (lower : ℕ → ℕ)
    (database : Database D) (label : Labels) where
  Operation-Keeps :
      {n n' : Node S W D} → Operation api lower database label n n' → Keeps api n.server n'.server
  unfolding dispatch_redis
  Operation-Keeps (dispatches q id now job n plain plain_id fresh) =
      let j = redis_job api lower q id now job in
      hset-Keeps api reliable (key pending j.queue j.id) (all_fields (add_flat j)) n.server
  Operation-Keeps (scans q k clock n) = scan_key-Keeps api reliable database q clock k n
  Operation-Keeps (reaps q k clock t n) = reap_key-Keeps api reliable database q clock k n t

  Operations-Keeps :
      {n n' : Node S W D} → Operations api lower database label n n' → Keeps api n.server n'.server
  Operations-Keeps {n} no_operation = Keeps-refl api n.server
  Operations-Keeps (and_then os o) = Keeps-trans api (Operations-Keeps os) (Operation-Keeps o)

  Operation-IsLabelled :
      {n n' : Node S W D}
      → Operation api lower database label n n'
      → IsLabelled api label n.server
      → IsLabelled api label n'.server
  unfolding dispatch_redis redis_job stamp_job
  Operation-IsLabelled (dispatches q id now job n plain plain_id fresh) l =
      let j = redis_job api lower q id now job in
      hset-IsLabelled api reliable label j.queue j.id plain plain_id n.server pending
        (all_fields (add_flat j))
        (rw (written_all (add_flat j) (view api n.server (key pending j.queue j.id))) fresh) l
  Operation-IsLabelled (scans q k clock n) l =
      scan_key-IsLabelled api reliable label database q clock k n l
  Operation-IsLabelled (reaps q k clock t n) l =
      reap_key-IsLabelled api reliable label database q clock k n t l

  Operations-IsLabelled :
      {n n' : Node S W D}
      → Operations api lower database label n n'
      → IsLabelled api label n.server
      → IsLabelled api label n'.server
  Operations-IsLabelled no_operation l = l
  Operations-IsLabelled (and_then os o) l = Operation-IsLabelled o (Operations-IsLabelled os l)

  -- A job that `Dispatch` has stored is never lost by whole operations: whatever dispatches, scans
  -- of keys and reaps of keys come before and after, of any queues, keys and readings of the clock
  -- and in any order, it stands under its pending, locked, completed or failed key, and every hash
  -- under one of these keys has its id, its name and its payload, with the empty text for a nil
  -- one. No other job of its channel has its id, and at the start each hash under the keys of a job
  -- is that job's, as where the keyspace is empty. The server carries out its commands, the default
  -- channel is a configured one, and neither it nor an id or a channel of a dispatch holds a colon.
  pub Operations-IsHeld :
      (table : IsLowerTable lower) (q : Queue W) (id : Text) (now : Instant) (job : Job W)
      {first n last : Node S W D}
      → contains q.queue_channels q.queue_channel_default ≡ Bool.true
      → NoColon q.queue_channel_default
      → NoColon id
      → IsLabelled api label first.server
      → let sent = redis_job api lower q id now job in
        Bears label sent.queue id (add_flat sent)
        → Operations api lower database label first n
        → Operations api lower database label
            (record n { server = (dispatch_redis api lower q id now job n.server).0 })
            last
        → IsHeld api sent.queue id last.server
          × ((st : KeyState) (g : Hash)
              → view api last.server (key st sent.queue id) ≡ some g
              → (g.id ≡ id)
                × (g.name ≡ (add_flat sent).name)
                × (g.payload ≡ (add_flat sent).payload))
  unfolding stored
  Operations-IsHeld table q id now job {n} listed plain hid labelled own before os =
      let keyed =
        dispatch_redis_lem api reliable lower table q id now job n.server listed plain hid in
      let c = (redis_job api lower q id now job).queue in
      let hc = (read_key-NoColon (key pending c id) c id keyed.3).0 in
      let end = Operations-IsLabelled os (
        Operation-IsLabelled (dispatches q id now job n hc hid own)
          (Operations-IsLabelled before labelled)) in
      (
        (Operations-Keeps os).kept c id hc hid (record {
          state = pending;
          hash = add_flat (redis_job api lower q id now job);
          found = keyed.0 (key pending c id) ∙ rw (text_eq_refl (key pending c id)) refl;
        }),
        λ st g e.
            let b = end.bears st c id hc hid g e in
            (b.id_kept, b.name_kept ∙ sym own.name_kept, b.payload_kept ∙ sym own.payload_kept),
      )
