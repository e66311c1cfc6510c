-- ===== src/Dispatch/Life.antt =====
-- From `Dispatch` of api/queue.go through the visits of api/redis.go to the end of a job.
use adele_queue.Base.{ℕ, ◌+◌, ◌*◌, ◌/◌, ◌<◌, ◌≤◌, ◌≡◌, refl, ◌∙◌, arith, true, [], none, some}
use adele_queue.Base.Int.{pos}
use adele_queue.Base.Text.{Text, text_eq_refl}
use adele_queue.Time.{Instant, unset, format, second}
use adele_queue.Handler.{Bytes, Handler}
use adele_queue.Job.{Job, add_flat}
use adele_queue.Database.{Database}
use adele_queue.Queue.{Queue, contains}
use adele_queue.Key.{pending, complete, key, IsLowerTable}
use adele_queue.Key
use adele_queue.Key.Split.{NoColon}
use adele_queue.Key.Distinct.{read_key-NoColon}
use adele_queue.Redis.{RedisApi, IsReliable, Node}
use adele_queue.Redis.View.{stored}
use adele_queue.Redis.Visits.{visits, Spaced, Serves, IsWaiting, IsEnded}
use adele_queue.Redis.Visits.Life.{visits_of_never_succeeding, visits_of_succeeding_after}
use adele_queue.Memory.Attempts.{NeverSucceeds}
use adele_queue.Memory.Attempts.Until.{SucceedsAfter, world_after}
use adele_queue.Stamping.{stamp_job}
use adele_queue.Dispatch.{redis_job, dispatch_redis}
use adele_queue.Dispatch.Keyed.{dispatch_redis_lem}

stored_payload :
    (o : Bytes)
    → (elim o [ none ↦ some [] | some text ↦ some text ])
      ≡ some (elim o [ none ↦ [] | some text ↦ text ])
stored_payload none = refl
stored_payload (some text) = refl

module _ {S W D : Type 0} (api : RedisApi S) (reliable : IsReliable api) (database : Database D)
    (lower : ℕ → ℕ) (table : IsLowerTable lower) (q : Queue W) (id : Text) (now : Instant)
    (job : Job W) (node : Node S W D) (h : Handler W) where
  -- What redis stores of the payload, and hands to the handler: the empty text for a nil one.
  abbrev p : Text
  p = elim job.payload [ none ↦ [] | some text ↦ text ]

  abbrev sent : Job W
  sent = redis_job api lower q id now job

  abbrev dispatched : Node S W D
  dispatched = record node { server = (dispatch_redis api lower q id now job node.server).0 }

  -- A job with `Retry` that was dispatched waits under its pending key, and has not run.
  dispatched-IsWaiting :
      contains q.queue_channels q.queue_channel_default ≡ true
      → NoColon q.queue_channel_default
      → NoColon id
      → job.dispatch_at ≡ unset
      → job.retry ≡ true
      → job.retry_counter ≡ pos 0
      → IsWaiting api sent.queue id job.name h p node.world 0 0 (now / second * second) dispatched
  unfolding redis_job stamp_job add_flat stored world_after format
  dispatched-IsWaiting listed plain plain_id at_once retries counter =
      let keyed =
        dispatch_redis_lem api reliable lower table q id now job node.server listed plain
          plain_id in
      record {
        hash = add_flat sent;
        held =
            keyed.0 (key pending sent.queue id)
            ∙ rw (text_eq_refl (key pending sent.queue id)) refl;
        id_kept = refl;
        name_kept = refl;
        payload_kept = stored_payload job.payload;
        retries = retries;
        counter = counter;
        due = rw at_once refl;
        world_is = refl;
      }

  module _ (n : ℕ) (serves : Serves q job.name h n) (m : ℕ) (clocks : ℕ → ℕ → Instant)
      (listed : contains q.queue_channels q.queue_channel_default ≡ true)
      (plain : NoColon q.queue_channel_default) (plain_id : NoColon id)
      (at_once : job.dispatch_at ≡ unset) (retries : job.retry ≡ true)
      (counter : job.retry_counter ≡ pos 0) (spaced : Spaced n clocks)
      (late : now / second * second < clocks 0 1) where
    waiting :
        IsWaiting api sent.queue id job.name h p node.world 0 0 (now / second * second) dispatched
    waiting = dispatched-IsWaiting listed plain plain_id at_once retries counter

    plain_channel : NoColon sent.queue
    plain_channel =
        let keyed =
          dispatch_redis_lem api reliable lower table q id now job node.server listed plain
            plain_id in
        (read_key-NoColon (key pending sent.queue id) sent.queue id keyed.3).0

    -- A job with `Retry` and without a schedule that is dispatched on the redis backend, and whose
    -- handler never succeeds, has after more than `MaxAttempts` visits of workers to its pending
    -- key run exactly `MaxAttempts + 1` times, and stands under its failed key with that status,
    -- its pending key gone. The first visit comes in a later second, and each other one more than
    -- `(MaxAttempts + 1) * 5` seconds after the run before it. The server carries out its commands,
    -- the job's counter is 0 and its name served by a plain handler, `MaxAttempts` is not negative
    -- and less than 1000000000, the default channel is a configured one, and neither it nor the id
    -- holds a colon.
    pub visits-dispatch_redis_failing :
        NeverSucceeds h
        → n < m
        → IsEnded api sent.queue id job.name h p node.world Key.failed "failed"
            (n + 1)
            (visits api database q (key pending sent.queue id) m clocks dispatched)
    visits-dispatch_redis_failing never enough =
        visits_of_never_succeeding api reliable database q sent.queue id job.name h p node.world n
          serves plain_channel plain_id m 0 0 (n + 1) (now / second * second) clocks dispatched
          waiting never spaced late (omega arith) (omega arith) (omega arith)

    -- A job with `Retry` and without a schedule that is dispatched on the redis backend, and whose
    -- handler, from the present world on, fails at each of `k` calls with its payload, or with the
    -- empty one where it is nil, and succeeds at the next, has after more than `k` visits of
    -- workers to its pending key run exactly `k + 1` times, and stands under its completed key with
    -- that status, its pending key gone, where `k` is at most `MaxAttempts`. The first visit comes
    -- in a later second, and each other one more than `(MaxAttempts + 1) * 5` seconds after the run
    -- before it. The server carries out its commands, the job's counter is 0 and its name served by
    -- a plain handler, `MaxAttempts` is not negative and less than 1000000000, the default channel
    -- is a configured one, and neither it nor the id holds a colon.
    pub visits-dispatch_redis_succeeding :
        (k : ℕ)
        → SucceedsAfter h (some p) k node.world
        → k ≤ n
        → k < m
        → IsEnded api sent.queue id job.name h p node.world complete "completed"
            (k + 1)
            (visits api database q (key pending sent.queue id) m clocks dispatched)
    visits-dispatch_redis_succeeding k until le enough =
        visits_of_succeeding_after api reliable database q sent.queue id job.name h p node.world n
          serves plain_channel plain_id k m 0 0 (now / second * second) clocks dispatched waiting
          until spaced late (omega arith) (omega arith) (omega arith)
