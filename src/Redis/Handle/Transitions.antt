-- ===== src/Redis/Handle/Transitions.antt =====
-- `handleRedisJob` of api/redis.go implements a transition of the keyspace.
use mathlib.Core.Path.{fun_ext, subst}
use adele_queue.Base.{ℕ, ◌≡◌, sym, refl, ap, ◌∙◌, arith, false, if◌then◌else◌, Bool-cases, inl, inr}
use adele_queue.Base.Text.{Text}
use adele_queue.Time.{Instant}
use adele_queue.Job.{Job, add_flat}
use adele_queue.Database.{Database}
use adele_queue.Queue.{Queue}
use adele_queue.Key.{KeyState, locked, complete, pending, key}
use adele_queue.Key
use adele_queue.Redis.{RedisApi, IsReliable, Node, status_field, written, move_job}
use adele_queue.Redis.View.{
  Keyspace, moved, stored, view, view-hset, view-hset_all, view-move_job, moved-stored,
}
use adele_queue.Redis.Handle.{
  Verdict, done, errored, unhandled, call_handler, completed_job, retried_job, failed_job,
  retriable, fail_job, settle, handle_redis_job,
}

-- What a run of a locked job makes of the keyspace: a success moves it to its completed key, a
-- failure that may be retried stores it anew under its pending key and leaves the locked one, and
-- any other failure moves it to its failed key.
unfoldable pub transition :
    {W : Type 0} → Queue W → Text → Text → (ℕ → Instant) → Verdict → Job W → Keyspace → Keyspace
transition q queue id clock done job ks =
    moved (key locked queue id) (key complete queue id) (add_flat (completed_job clock job)) ks
transition q queue id clock (errored e) job ks =
    if retriable q job
    then stored (key pending queue id) (add_flat (retried_job clock job)) (
        stored (key locked queue id)
          (written (status_field "processing") (ks (key locked queue id))) ks)
    else moved (key locked queue id) (key Key.failed queue id) (add_flat (failed_job clock e job))
        ks
transition q queue id clock (unhandled e) job ks =
    moved (key locked queue id) (key Key.failed queue id)
      (add_flat (failed_job clock e (record job { retry = false }))) ks

module _ {S W D : Type 0} (api : RedisApi S) (reliable : IsReliable api) (database : Database D)
    (q : Queue W) (queue id : Text) (clock : ℕ → Instant) where
  pub fail_job_server :
      (e : Text) (job : Job W) (n : Node S W D)
      → (fail_job api database q queue id clock e job n).server
        ≡ (move_job api queue id Key.failed (failed_job clock e job) n.server).0
  unfolding fail_job
  fail_job_server e job n = ground arith

  -- The keyspace in which the status of the locked job was just set.
  abbrev touched : Keyspace → Keyspace
  touched ks =
      stored (key locked queue id) (written (status_field "processing") (ks (key locked queue id)))
        ks

  moved_on :
      (new : KeyState) (job : Job W) (ks : Keyspace) (s : S)
      → view api s ≡ touched ks
      → (j : Text)
      → view api (move_job api queue id new job s).0 j
        ≡ moved (key locked queue id) (key new queue id) (add_flat job) ks j
  moved_on new job ks s e j =
      (view-move_job api reliable queue id new job s).0 j
      ∙ ap (λ (k : Keyspace). moved (key locked queue id) (key new queue id) (add_flat job) k j) e
      ∙ moved-stored (key locked queue id) (key new queue id) (add_flat job)
          (written (status_field "processing") (ks (key locked queue id))) ks j

  failed_on :
      (x : Text) (job : Job W) (ks : Keyspace) (n : Node S W D)
      → view api n.server ≡ touched ks
      → (j : Text)
      → view api (fail_job api database q queue id clock x job n).server j
        ≡ moved
            (key locked queue id)
            (key Key.failed queue id)
            (add_flat (failed_job clock x job))
            ks
            j
  failed_on x job ks n e j =
      rw (fail_job_server x job n) (moved_on Key.failed (failed_job clock x job) ks n.server e j)

  -- Settling from a keyspace in which the locked key was just touched.
  settle-view :
      (v : Verdict) (job : Job W) (ks : Keyspace) (n : Node S W D)
      → view api n.server ≡ touched ks
      → (j : Text)
      → view api (settle api database q queue id clock v job n).server j
        ≡ transition q queue id clock v job ks j
  unfolding settle transition
  settle-view done job ks n e j = moved_on complete (completed_job clock job) ks n.server e j
  settle-view (errored x) job ks n e j = elim (Bool-cases (retriable q job)) [
    | inl again ↦ rw again (
        view-hset_all api reliable (key pending queue id) (add_flat (retried_job clock job))
          n.server j
        ∙ ap
            (λ (k : Keyspace). stored (key pending queue id) (add_flat (retried_job clock job)) k j)
            e)
    | inr final ↦ rw final (failed_on x job ks n e j)
  ]
  settle-view (unhandled x) job ks n e j = failed_on x (record job { retry = false }) ks n e j

  -- The run of the handler, once the locked key is marked.
  handle_steps :
      (job : Job W) (n : Node S W D)
      → handle_redis_job api database q queue job id clock n
        ≡ settle api database q queue id clock (call_handler q job n.world).0 job (record n {
          server = (api.hset (key locked queue job.id) (status_field "processing") n.server).0;
          world = (call_handler q job n.world).1;
        })
  unfolding handle_redis_job
  handle_steps job n =
      ground (
        arith,
        reliable.hset_accepted (key locked queue job.id) (status_field "processing") n.server,
      )

  -- On a server that carries out its commands, the run of a locked job, whose hash holds the id
  -- that its key names, changes the keyspace exactly by the transition of the handler's verdict.
  pub handle_redis_job-view :
      (job : Job W) (n : Node S W D)
      → job.id ≡ id
      → (j : Text)
      → view api (handle_redis_job api database q queue job id clock n).server j
        ≡ transition q queue id clock (call_handler q job n.world).0 job (view api n.server) j
  handle_redis_job-view job n same j = rw (handle_steps job n) (
      settle-view (call_handler q job n.world).0 job (view api n.server)
        (record n {
          server = (api.hset (key locked queue job.id) (status_field "processing") n.server).0;
          world = (call_handler q job n.world).1;
        })
        (subst
          (λ (i : Text).
            view api (api.hset (key locked queue i) (status_field "processing") n.server).0
            ≡ touched (view api n.server))
          (sym same)
          (fun_ext
            (view-hset api reliable (key locked queue id) (status_field "processing") n.server)))
        j)

  fail_job-world :
      (e : Text) (job : Job W) (n : Node S W D)
      → (fail_job api database q queue id clock e job n).world ≡ n.world
  unfolding fail_job
  fail_job-world e job n = ground arith

  settle-world :
      (v : Verdict) (job : Job W) (n : Node S W D)
      → (settle api database q queue id clock v job n).world ≡ n.world
  unfolding settle
  settle-world done job n = refl
  settle-world (errored x) job n = ground (arith, fail_job-world x job n)
  settle-world (unhandled x) job n = fail_job-world x (record job { retry = false }) n

  -- The world after the run is the one that the handler leaves.
  pub handle_redis_job-world :
      (job : Job W) (n : Node S W D)
      → (handle_redis_job api database q queue job id clock n).world
        ≡ (call_handler q job n.world).1
  handle_redis_job-world job n = rw (handle_steps job n) (
      settle-world (call_handler q job n.world).0 job (record n {
        server = (api.hset (key locked queue job.id) (status_field "processing") n.server).0;
        world = (call_handler q job n.world).1;
      }))
