-- ===== src/Conserved/Worker.antt =====
-- `handleRedisJob` and `cursorScanRedisDb` of api/redis.go, as sequences of commands.
use adele_queue.Base.{
  Bool, ℕ, ◌+◌, ◌≡◌, refl, Option, none, some, Bool-cases, Option-cases, inl, inr, ltb, ◌⊎◌,
}
use adele_queue.Base.Text.{Text}
use adele_queue.Time.{Instant, parse, format}
use adele_queue.Job.{Job, add_flat}
use adele_queue.Database.{Database}
use adele_queue.Queue.{Queue}
use adele_queue.Key.{KeyState, pending, locked, key, read_key}
use adele_queue.Key
use adele_queue.Key.Split.{NoColon}
use adele_queue.Key.Distinct.{read_key-NoColon}
use adele_queue.Redis.{
  RedisApi, RedisError, IsReliable, Node, Reply, value, error, all_fields, status_field,
  locked_at_field, set_redis_key, get_redis_value, move_job,
}
use adele_queue.Redis.Handle.{
  Verdict, done, errored, unhandled, call_handler, retriable, retried_job, fail_job, settle,
  handle_redis_job, failed_job, completed_job,
}
use adele_queue.Redis.Handle.Transitions.{fail_job_server}
use adele_queue.Redis.Scan.{no_error, gate, take, claim, scan_key}
use adele_queue.Conserved.{Keeps, Keeps-refl, Keeps-trans, hset-Keeps, set_redis_key-Keeps}

pub Reply-cases :
    {A : Type 0} (r : Reply A) → ((a : A) × (r ≡ value a)) ⊎ ((e : RedisError) × (r ≡ error e))
Reply-cases (value a) = inl (a, refl)
Reply-cases (error e) = inr (e, refl)

module _ {S W : Type 0} (api : RedisApi S) (reliable : IsReliable api) (c i : Text) (hc : NoColon c)
    (hi : NoColon i) where
  pub move_job-Keeps :
      (new : KeyState) (job : Job W) (s : S) → Keeps api s (move_job api c i new job s).0
  unfolding move_job
  move_job-Keeps new job s =
      rw (reliable.hset_accepted (key locked c i) (all_fields (add_flat job)) s, move_job)
        (Keeps-trans api (hset-Keeps api reliable (key locked c i) (all_fields (add_flat job)) s) (
          set_redis_key-Keeps api reliable c i hc hi
            (api.hset (key locked c i) (all_fields (add_flat job)) s).0 locked new))

module _ {S W D : Type 0} (api : RedisApi S) (reliable : IsReliable api) (c i : Text)
    (hc : NoColon c) (hi : NoColon i) where
  module _ (database : Database D) (q : Queue W) (clock : ℕ → Instant) where
    fail_job-Keeps :
        (e : Text) (job : Job W) (n : Node S W D)
        → Keeps api n.server (fail_job api database q c i clock e job n).server
    fail_job-Keeps e job n =
        rw (fail_job_server api reliable database q c i clock e job n)
          (move_job-Keeps api reliable c i hc hi Key.failed (failed_job clock e job) n.server)

    settle-Keeps :
        (v : Verdict) (job : Job W) (n : Node S W D)
        → Keeps api n.server (settle api database q c i clock v job n).server
    unfolding settle
    settle-Keeps done job n =
        move_job-Keeps api reliable c i hc hi Key.complete (completed_job clock job) n.server
    settle-Keeps (errored e) job n = elim (Bool-cases (retriable q job)) [
      | inl again ↦ rw again (
          hset-Keeps api reliable (key pending c i) (all_fields (add_flat (retried_job clock job)))
            n.server)
      | inr final ↦ rw final (fail_job-Keeps e job n)
    ]
    settle-Keeps (unhandled e) job n = fail_job-Keeps e (record job { retry = Bool.false }) n

    handle_redis_job-Keeps :
        (job : Job W) (n : Node S W D)
        → Keeps api n.server (handle_redis_job api database q c job i clock n).server
    unfolding handle_redis_job
    handle_redis_job-Keeps job n =
        let touched = (api.hset (key locked c job.id) (status_field "processing") n.server).0 in
        let called = call_handler q job n.world in
        rw
          (
            reliable.hset_accepted (key locked c job.id) (status_field "processing") n.server,
            handle_redis_job,
          )
          (Keeps-trans api
            (hset-Keeps api reliable (key locked c job.id) (status_field "processing") n.server)
            (settle-Keeps called.0 job (record n { server = touched; world = called.1 })))

  module _ (database : Database D) (q : Queue W) (clock : ℕ → Instant) where
    gate-Keeps :
        (job : Job W) (o : Option Instant) (n : Node S W D)
        → Keeps api n.server (gate api database q c i clock job o n).0.server
    unfolding gate
    gate-Keeps job none n = Keeps-refl api n.server
    gate-Keeps job (some t) n = elim (Bool-cases (ltb t (clock 1))) [
      | inl due ↦ rw due (handle_redis_job-Keeps database q (λ k. clock (k + 2)) job n)
      | inr early ↦ rw early (set_redis_key-Keeps api reliable c i hc hi n.server locked pending)
    ]

    take-Keeps : (n : Node S W D) → Keeps api n.server (take api database q c i clock n).0.server
    unfolding take
    take-Keeps n =
        let s = (api.hset (key locked c i) (locked_at_field (format (clock 0))) n.server).0 in
        let stamped =
          hset-Keeps api reliable (key locked c i) (locked_at_field (format (clock 0))) n.server in
        elim (Reply-cases {A = Job W} (get_redis_value api c i locked s)) [
          | inl (job, e) ↦
              rw (e, take)
                (Keeps-trans api stamped
                  (gate-Keeps job (parse job.retry_after) (record n { server = s })))
          | inr (x, e) ↦ rw (e, take) stamped
        ]

    claim-Keeps : (n : Node S W D) → Keeps api n.server (claim api database q c i clock n).0.server
    unfolding claim
    claim-Keeps n =
        let r = set_redis_key api c i pending locked n.server in
        let renamed = set_redis_key-Keeps api reliable c i hc hi n.server pending locked in
        elim (Bool-cases (no_error r.1)) [
          | inl ok ↦ rw ok (Keeps-trans api renamed (take-Keeps (record n { server = r.0 })))
          | inr taken ↦ rw taken renamed
        ]

module _ {S W D : Type 0} (api : RedisApi S) (reliable : IsReliable api) (database : Database D)
    (q : Queue W) (clock : ℕ → Instant) where
  pub scan_key-Keeps :
      (k : Text) (n : Node S W D) → Keeps api n.server (scan_key api database q k clock n).0.server
  unfolding scan_key
  scan_key-Keeps k n = elim (Option-cases (read_key k)) [
    | inl short ↦ rw (short, scan_key) (Keeps-refl api n.server)
    | inr ((queue, id), e) ↦
        let (hq, hid) = read_key-NoColon k queue id e in
        rw (e, scan_key) (claim-Keeps api reliable queue id hq hid database q clock n)
  ]
