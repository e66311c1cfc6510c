-- ===== src/Redis/Steps/Alone.antt =====
-- A worker that is not interrupted makes the visit of api/redis.go.
use adele_queue.Base.{ℕ, ◌≡◌, arith}
use adele_queue.Base.Text.{Text}
use adele_queue.Time.{Instant}
use adele_queue.Database.{Database}
use adele_queue.Queue.{Queue}
use adele_queue.Redis.{RedisApi, Node, move_job}
use adele_queue.Redis.Handle.{fail_job, settle, handle_redis_job}
use adele_queue.Redis.Scan.{gate, take, claim}
use adele_queue.Redis.Steps.{arriving, finished, step, steps}

module _ {S W D : Type 0} (api : RedisApi S) (database : Database D) (q : Queue W) (queue id : Text)
    (clock : ℕ → Instant) where
  -- Seven steps of a worker that no other interrupts are the visit of the scan: they end with the
  -- node and with the way of going on that the body of the loop over the keys gives, on every
  -- branch and whatever errors the server answers.
  pub steps-claim :
      (n : Node S W D)
      → steps api database q queue id clock 7 arriving n ≡ (
        (claim api database q queue id clock n).0,
        finished (claim api database q queue id clock n).1,
      )
  unfolding steps step claim take gate handle_redis_job settle fail_job move_job
  steps-claim n = ground arith
