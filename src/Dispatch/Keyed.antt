-- ===== src/Dispatch/Keyed.antt =====
-- Where `Dispatch` of api/queue.go puts a job on the redis backend.
use adele_queue.Base.{ℕ, ◌≡◌, arith, true, none, some, [], Bool-cases, inl, inr}
use adele_queue.Base.Text.{Text, text_eq}
use adele_queue.Time.{Instant}
use adele_queue.Job.{Job, add_flat}
use adele_queue.Queue.{Queue, contains}
use adele_queue.Key.{pending, key, read_key, IsLowerTable, redis_keyspace_formater}
use adele_queue.Key.Split.{NoColon, read_key-key}
use adele_queue.Key.Channel.{redis_keyspace_formater-NoColon}
use adele_queue.Redis.{RedisApi, IsReliable, all_fields}
use adele_queue.Redis.View.{stored, view, view-hset_all}
use adele_queue.Stamping.{stamp_job}
use adele_queue.Dispatch.{choose_channel, redis_job, dispatch_redis}

module _ (lower : ℕ → ℕ) (table : IsLowerTable lower) {W : Type 0} (q : Queue W) (c : Text) where
  -- Where the default channel is a configured one and holds no colon, the channel of every job is a
  -- configured one and holds no colon.
  pub choose_channel_lem :
      contains q.queue_channels q.queue_channel_default ≡ true
      → NoColon q.queue_channel_default
      → (contains q.queue_channels (choose_channel lower q c) ≡ true)
        × NoColon (choose_channel lower q c)
  unfolding choose_channel
  choose_channel_lem listed plain = elim (Bool-cases (text_eq c [])) [
    | inl empty ↦ rw empty (listed, plain)
    | inr named ↦ elim (Bool-cases (contains q.queue_channels (redis_keyspace_formater lower c))) [
      | inl known ↦ rw (named, known) (known, redis_keyspace_formater-NoColon lower table c)
      | inr unknown ↦ rw (named, unknown) (listed, plain)
    ]
  ]

module _ {S W : Type 0} (api : RedisApi S) (reliable : IsReliable api) (lower : ℕ → ℕ)
    (table : IsLowerTable lower) (q : Queue W) (id : Text) (now : Instant) (job : Job W) where
  -- On a server that carries out its commands, where the default channel is a configured one and
  -- neither it nor the id holds a colon, dispatching stores the job's hash under one pending key,
  -- touches no other key and returns the job's id. The key names a configured channel, and the
  -- scanners read that channel and that id back from it.
  pub dispatch_redis_lem :
      (s : S)
      → contains q.queue_channels q.queue_channel_default ≡ true
      → NoColon q.queue_channel_default
      → NoColon id
      → let j = redis_job api lower q id now job in
        ((k : Text)
          → view api (dispatch_redis api lower q id now job s).0 k
            ≡ stored (key pending j.queue id) (add_flat j) (view api s) k)
        × ((dispatch_redis api lower q id now job s).1 ≡ (id, none))
        × (contains q.queue_channels j.queue ≡ true)
        × (read_key (key pending j.queue id) ≡ some (j.queue, id))
  unfolding dispatch_redis redis_job stamp_job
  dispatch_redis_lem s listed plain hid = (
    λ k.
        view-hset_all api reliable (key pending channel id)
          (add_flat (redis_job api lower q id now job)) s k,
    ground (
      arith,
      reliable.hset_accepted (key pending channel id)
          (all_fields (add_flat (redis_job api lower q id now job))) s,
    ),
    chosen.0,
    read_key-key pending channel id chosen.1 hid,
  )
    where
      channel : Text
      channel = choose_channel lower q job.queue

      chosen : (contains q.queue_channels channel ≡ true) × NoColon channel
      chosen = choose_channel_lem lower table q job.queue listed plain
