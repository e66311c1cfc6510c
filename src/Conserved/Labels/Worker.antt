-- ===== src/Conserved/Labels/Worker.antt =====
-- The label of a job through `handleRedisJob` and `cursorScanRedisDb` of api/redis.go.
use adele_queue.Base.{
  Bool, ℕ, ◌+◌, ◌≡◌, ◌≢◌, refl, sym, ◌∙◌, Option, none, some, Bool-cases, Option-cases, inl, inr,
  ltb,
}
use mathlib.Core.Path.{subst}
use adele_queue.Base.Text.{Text}
use adele_queue.Time.{Instant, parse, format}
use adele_queue.Job.{Job, Hash, add_flat, scan_struct}
use adele_queue.Database.{Database}
use adele_queue.Queue.{Queue}
use adele_queue.Key.{KeyState, pending, locked, key, read_key}
use adele_queue.Key
use adele_queue.Key.Split.{NoColon}
use adele_queue.Key.Distinct.{read_key-NoColon}
use adele_queue.Redis.{
  RedisApi, IsReliable, Node, all_fields, status_field, locked_at_field, set_redis_key, move_job,
}
use adele_queue.Redis.View.{view, written_all}
use adele_queue.Redis.Handle.{
  Verdict, done, errored, unhandled, call_handler, retriable, retried_job, fail_job, settle,
  handle_redis_job, failed_job, completed_job,
}
use adele_queue.Redis.Handle.Transitions.{fail_job_server}
use adele_queue.Redis.Scan.{no_error, gate, take, claim, scan_key}
use adele_queue.Redis.Steps.Pending.{claim_missing, claim_found, read_locked, locked-hset_locked}
use adele_queue.Conserved.Labels.{
  Labels, Bears, IsLabelled, hset-IsLabelled, set_redis_key-IsLabelled,
}

not_accepted : {A : Type 0} (e : Option A) → e ≢ none → no_error e ≡ Bool.false
not_accepted none h = absurd (h refl)
not_accepted (some a) h = refl

-- The label of a job, as it would be stored.
pub record Carries {W : Type 0} (label : Labels) (c i : Text) (job : Job W) : Type 0 where
  pub id_kept : job.id ≡ i
  pub name_kept : job.name ≡ (label c i).0
  pub payload_kept : job.payload ≡ some (label c i).1

pub scan_struct-Carries :
    {W : Type 0} (label : Labels) (c i : Text) (g : Hash)
    → Bears label c i g
    → Carries label c i (scan_struct {W = W} g)
unfolding scan_struct
scan_struct-Carries label c i g b = record {
  id_kept = b.id_kept;
  name_kept = b.name_kept;
  payload_kept = b.payload_kept;
}

pub add_flat-Bears :
    {W : Type 0} (label : Labels) (c i : Text) (job : Job W)
    → Carries label c i job
    → Bears label c i (add_flat job)
unfolding add_flat
add_flat-Bears label c i job b = record {
  id_kept = b.id_kept;
  name_kept = b.name_kept;
  payload_kept = rw b.payload_kept refl;
}

module _ {S W : Type 0} (api : RedisApi S) (reliable : IsReliable api) (label : Labels) (c i : Text)
    (hc : NoColon c) (hi : NoColon i) where
  -- HSET of all the fields of a job.
  pub hset_all-IsLabelled :
      (st : KeyState) (job : Job W) (s : S)
      → Carries label c i job
      → IsLabelled api label s
      → IsLabelled api label (api.hset (key st c i) (all_fields (add_flat job)) s).0
  hset_all-IsLabelled st job s b =
      hset-IsLabelled api reliable label c i hc hi s st (all_fields (add_flat job))
        (rw (written_all (add_flat job) (view api s (key st c i))) (add_flat-Bears label c i job b))

  pub move_job-IsLabelled :
      (new : KeyState) (job : Job W) (s : S)
      → Carries label c i job
      → IsLabelled api label s
      → IsLabelled api label (move_job api c i new job s).0
  unfolding move_job
  move_job-IsLabelled new job s b l =
      rw (reliable.hset_accepted (key locked c i) (all_fields (add_flat job)) s, move_job)
        (set_redis_key-IsLabelled api reliable label c i hc hi
          (api.hset (key locked c i) (all_fields (add_flat job)) s).0 locked new
          (hset_all-IsLabelled locked job s b l))

module _ {S W D : Type 0} (api : RedisApi S) (reliable : IsReliable api) (label : Labels)
    (c i : Text) (hc : NoColon c) (hi : NoColon i) (database : Database D) (q : Queue W) where
  module _ (clock : ℕ → Instant) where
    fail_job-IsLabelled :
        (e : Text) (job : Job W) (n : Node S W D)
        → Carries label c i job
        → IsLabelled api label n.server
        → IsLabelled api label (fail_job api database q c i clock e job n).server
    unfolding failed_job
    fail_job-IsLabelled e job n b l =
        rw (fail_job_server api reliable database q c i clock e job n) (
          move_job-IsLabelled api reliable label c i hc hi Key.failed (failed_job clock e job)
            n.server
            (record { id_kept = b.id_kept; name_kept = b.name_kept; payload_kept = b.payload_kept })
            l)

    settle-IsLabelled :
        (v : Verdict) (job : Job W) (n : Node S W D)
        → Carries label c i job
        → IsLabelled api label n.server
        → IsLabelled api label (settle api database q c i clock v job n).server
    unfolding settle completed_job retried_job
    settle-IsLabelled done job n b l =
        move_job-IsLabelled api reliable label c i hc hi Key.complete (completed_job clock job)
          n.server
          (record { id_kept = b.id_kept; name_kept = b.name_kept; payload_kept = b.payload_kept }) l
    settle-IsLabelled (errored e) job n b l = elim (Bool-cases (retriable q job)) [
      | inl again ↦ rw again (
          hset_all-IsLabelled api reliable label c i hc hi pending (retried_job clock job) n.server
            (record { id_kept = b.id_kept; name_kept = b.name_kept; payload_kept = b.payload_kept })
            l)
      | inr final ↦ rw final (fail_job-IsLabelled e job n b l)
    ]
    settle-IsLabelled (unhandled e) job n b l =
        fail_job-IsLabelled e (record job { retry = Bool.false }) n
          (record { id_kept = b.id_kept; name_kept = b.name_kept; payload_kept = b.payload_kept }) l

    -- The run of the job whose hash stands under its locked key.
    handle_redis_job-IsLabelled :
        (g : Hash) (n : Node S W D)
        → view api n.server (key locked c i) ≡ some g
        → IsLabelled api label n.server
        → IsLabelled api label (handle_redis_job api database q c (scan_struct g) i clock n).server
    unfolding handle_redis_job
    handle_redis_job-IsLabelled g n there l =
        let b = l.bears locked c i hc hi g there in
        let job : Job W = scan_struct g in
        let carried = scan_struct-Carries {W = W} label c i g b in
        let own = key locked c job.id in
        let touched = (api.hset own (status_field "processing") n.server).0 in
        let called = call_handler q job n.world in
        let marked =
          hset-IsLabelled api reliable label c i hc hi n.server locked (status_field "processing")
            (rw there (record {
              id_kept = b.id_kept;
              name_kept = b.name_kept;
              payload_kept = b.payload_kept;
            }))
            l in
        rw (reliable.hset_accepted own (status_field "processing") n.server, handle_redis_job)
          (settle-IsLabelled called.0 job (record n { server = touched; world = called.1 }) carried
            (subst
              (λ (x : Text).
                IsLabelled api label
                  (api.hset (key locked c x) (status_field "processing") n.server).0)
              (sym carried.id_kept) marked))

  module _ (clock : ℕ → Instant) where
    gate-IsLabelled :
        (g : Hash) (o : Option Instant) (n : Node S W D)
        → view api n.server (key locked c i) ≡ some g
        → IsLabelled api label n.server
        → IsLabelled api label (gate api database q c i clock (scan_struct g) o n).0.server
    unfolding gate
    gate-IsLabelled g none n there l = l
    gate-IsLabelled g (some t) n there l = elim (Bool-cases (ltb t (clock 1))) [
      | inl due ↦ rw due (handle_redis_job-IsLabelled (λ k. clock (k + 2)) g n there l)
      | inr early ↦
          rw early (set_redis_key-IsLabelled api reliable label c i hc hi n.server locked pending l)
    ]

    take-IsLabelled :
        (g : Hash) (n : Node S W D)
        → view api n.server (key locked c i) ≡ some g
        → IsLabelled api label n.server
        → IsLabelled api label (take api database q c i clock n).0.server
    unfolding take
    take-IsLabelled g n there l =
        let f = locked_at_field (format (clock 0)) in
        let s = (api.hset (key locked c i) f n.server).0 in
        let stamped : Hash = record g { locked_at = format (clock 0) } in
        let held = locked-hset_locked api reliable c i n.server f ∙ rw there refl in
        let b = l.bears locked c i hc hi g there in
        rw (read_locked api reliable c i s {W = W} stamped held, take)
          (gate-IsLabelled stamped (parse (scan_struct {W = W} stamped).retry_after)
            (record n { server = s }) held
            (hset-IsLabelled api reliable label c i hc hi n.server locked f
              (rw there (record {
                id_kept = b.id_kept;
                name_kept = b.name_kept;
                payload_kept = b.payload_kept;
              }))
              l))

    claim-IsLabelled :
        (n : Node S W D)
        → IsLabelled api label n.server
        → IsLabelled api label (claim api database q c i clock n).0.server
    unfolding claim
    claim-IsLabelled n l =
        let r = set_redis_key api c i pending locked n.server in
        let renamed =
          set_redis_key-IsLabelled api reliable label c i hc hi n.server pending locked l in
        elim (Option-cases (view api n.server (key pending c i))) [
          | inl missing ↦
              rw (not_accepted r.1 (claim_missing api reliable c i n.server missing).0) renamed
          | inr (g, found) ↦
              let (accepted, gone, under) = claim_found api reliable c i n.server g found in
              rw accepted (take-IsLabelled g (record n { server = r.0 }) under renamed)
        ]

module _ {S W D : Type 0} (api : RedisApi S) (reliable : IsReliable api) (label : Labels)
    (database : Database D) (q : Queue W) (clock : ℕ → Instant) where
  pub scan_key-IsLabelled :
      (k : Text) (n : Node S W D)
      → IsLabelled api label n.server
      → IsLabelled api label (scan_key api database q k clock n).0.server
  unfolding scan_key
  scan_key-IsLabelled k n l = elim (Option-cases (read_key k)) [
    | inl short ↦ rw (short, scan_key) l
    | inr ((queue, id), e) ↦
        let (hq, hid) = read_key-NoColon k queue id e in
        rw (e, scan_key) (claim-IsLabelled api reliable label queue id hq hid database q clock n l)
  ]
