-- ===== src/Redis/Visits/Visit.antt =====
-- What one visit of a worker does to a job that waits, or that is gone (api/redis.go).
use adele_queue.Base.{
  ℕ, zero, suc, ◌+◌, ◌*◌, ◌≤◌, ◌<◌, ◌≡◌, ◌≢◌, refl, ap, ◌∙◌, arith, true, false, String, Option,
  none, some,
}
use adele_queue.Base.Int.{add64-pos_one}
use adele_queue.Base.Text.{Text, text_eq, text_eq_refl}
use adele_queue.Time.{Instant, second}
use adele_queue.Handler.{succeeded, Handler}
use adele_queue.Job.{Job, Hash, add_flat, scan_struct}
use adele_queue.Database.{Database}
use adele_queue.Queue.{Queue}
use adele_queue.Key.{KeyState, pending, locked, complete, key}
use adele_queue.Key
use adele_queue.Key.Distinct.{
  text_eq-locked_pending, text_eq-complete_pending, text_eq-failed_pending,
}
use adele_queue.Redis.{RedisApi, IsReliable, Node}
use adele_queue.Redis.View.{Keyspace, moved, stored, view}
use adele_queue.Redis.Handle.{
  Verdict, done, errored, call_handler, retriable, retried_job, failed_job, completed_job,
}
use adele_queue.Redis.Handle.Called.{called_failing, called_succeeding, retried_due}
use adele_queue.Redis.Handle.Transitions.{transition}
use adele_queue.Redis.Scan.{claim}
use adele_queue.Redis.Scan.Claim.{
  locked_hash, claim_due, claim_due-world, claim_taken, claim_taken-view, claim_early,
}
use adele_queue.Redis.Visits.{Serves, IsWaiting, IsEnded}
use adele_queue.Memory.Attempts.Until.{world_after}

-- One more call at the end.
world_after-suc :
    {W : Type 0} (h : Handler W) (p : Option Text) (c : ℕ) (w : W)
    → (h p (world_after h p c w)).1 ≡ world_after h p (suc c) w
unfolding world_after
world_after-suc h p zero w = refl
world_after-suc h p (suc c) w = world_after-suc h p c (h p w).1

-- What a job that leaves its locked key for the key of `st` leaves under its pending key.
moved_gone :
    (queue id : Text) (st : KeyState) (x y : Hash) (ks : Keyspace)
    → text_eq (key st queue id) (key pending queue id) ≡ false
    → moved
        (key locked queue id)
        (key st queue id)
        x
        (moved (key pending queue id) (key locked queue id) y ks)
        (key pending queue id)
      ≡ none
unfolding moved
moved_gone queue id st x y ks e =
    rw (e, text_eq-locked_pending queue id id, text_eq_refl (key pending queue id)) refl

moved_held : (a b : Text) (x : Hash) (ks : Keyspace) → moved a b x ks b ≡ some x
unfolding moved
moved_held a b x ks = rw (text_eq_refl b) refl

module _ {S W D : Type 0} (api : RedisApi S) (reliable : IsReliable api) (database : Database D)
    (q : Queue W) (queue id : Text) (name : String) (h : Handler W) (p : Text) (w : W) (n : ℕ)
    (serves : Serves q name h n) (r c : ℕ) (t : Instant) (clock : ℕ → Instant) (m : Node S W D)
    (d : IsWaiting api queue id name h p w r c t m) where
  -- The job as the worker reads it.
  abbrev run : Job W
  run = scan_struct (locked_hash clock d.hash)

  -- The node after the visit.
  abbrev next : Node S W D
  next = (claim api database q queue id clock m).0

  abbrev later : ℕ → Instant
  later i = clock (i + 2)

  -- The keyspace of the job under its lock.
  abbrev taken : Keyspace
  taken =
      moved (key pending queue id) (key locked queue id) (locked_hash clock d.hash)
        (view api m.server)

  failing :
      (h (some p) m.world).0 ≢ succeeded
      → (e : Text) × (call_handler q run m.world ≡ (errored e, (h (some p) m.world).1))
  unfolding scan_struct
  failing bad =
      called_failing q h run (some p) m.world (rw d.name_kept serves.entry) d.payload_kept bad

  succeeding :
      (h (some p) m.world).0 ≡ succeeded
      → call_handler q run m.world ≡ (done, (h (some p) m.world).1)
  unfolding scan_struct
  succeeding good =
      called_succeeding q h run (some p) m.world (rw d.name_kept serves.entry) d.payload_kept good

  retriable-run : c < n → retriable q run ≡ true
  unfolding retriable scan_struct
  retriable-run lt = rw (d.retries, d.counter, serves.limit) (ground arith)

  exhausted_run : n ≤ c → retriable q run ≡ false
  unfolding retriable scan_struct
  exhausted_run le = rw (d.retries, d.counter, serves.limit) (ground arith)

  -- A visit before the time puts the job back.
  pub visit_early : clock 1 ≤ t → IsWaiting api queue id name h p w r c t next
  visit_early early =
      let put = claim_early api reliable database q queue id clock d.hash t m d.held d.due early in
      record {
        hash = locked_hash clock d.hash;
        held =
            put.0 (key pending queue id)
            ∙ moved_held (key locked queue id) (key pending queue id) (locked_hash clock d.hash)
                (view api m.server);
        id_kept = d.id_kept;
        name_kept = d.name_kept;
        payload_kept = d.payload_kept;
        retries = d.retries;
        counter = d.counter;
        due = d.due;
        world_is = put.1 ∙ d.world_is;
      }

  module _ (late : t < clock 1) where
    -- The keyspace and the world after a run with the verdict `v`.
    ran :
        (v : Verdict)
        → call_handler q run m.world ≡ (v, (h (some p) m.world).1)
        → ((j : Text) → view api next.server j ≡ transition q queue id later v run taken j)
          × (next.world ≡ world_after h (some p) (suc r) w)
    ran v e =
        let due =
          claim_due api reliable database q queue id clock d.hash t m d.held d.due late d.id_kept in
        (
          λ j. due.0 j ∙ ap (λ x. transition q queue id later x run taken j) (ap (λ x. x.0) e),
          claim_due-world api reliable database q queue id clock d.hash t m d.held d.due late
              ∙ ap (λ x. x.1) e
              ∙ rw d.world_is refl
              ∙ world_after-suc h (some p) r w,
        )

    -- A visit after the time whose run fails with an attempt left: the job waits for another.
    pub visit_retried :
        c < n
        → (h (some p) m.world).0 ≢ succeeded
        → (u : Instant) × IsWaiting api queue id name h p w (suc r) (suc c) u next
          × (u ≤ clock 2 + (n + 1) * 5 * second)
    unfolding transition stored scan_struct add_flat retried_job
    visit_retried lt bad =
        let (e, f) = failing bad in
        let (keys, world) = ran (errored e) f in
        let (u, at_u, le) = retried_due later run n c t d.due d.counter lt serves.small in
        (
          u,
          record {
            hash = add_flat (retried_job later run);
            held =
                keys (key pending queue id)
                ∙ rw (retriable-run lt, text_eq_refl (key pending queue id)) refl;
            id_kept = d.id_kept;
            name_kept = d.name_kept;
            payload_kept = rw d.payload_kept refl;
            retries = d.retries;
            counter = rw d.counter (add64-pos_one c (omega (arith, serves.small)));
            due = at_u;
            world_is = world;
          },
          le,
        )

    -- Its run fails with no attempt left.
    pub visit_failed :
        n ≤ c
        → (h (some p) m.world).0 ≢ succeeded
        → IsEnded api queue id name h p w Key.failed "failed" (suc r) next
    unfolding transition add_flat failed_job
    visit_failed le bad =
        let (e, f) = failing bad in
        let (keys, world) = ran (errored e) f in
        record {
          hash = add_flat (failed_job later e run);
          gone =
              keys (key pending queue id)
              ∙ rw (exhausted_run le)
                  (moved_gone queue id Key.failed _ _ _ (text_eq-failed_pending queue id id));
          held = keys (key Key.failed queue id) ∙ rw (exhausted_run le) (moved_held _ _ _ _);
          status_is = refl;
          world_is = world;
        }

    -- Its run succeeds.
    pub visit_completed :
        (h (some p) m.world).0 ≡ succeeded
        → IsEnded api queue id name h p w complete "completed" (suc r) next
    unfolding transition add_flat completed_job
    visit_completed good =
        let (keys, world) = ran done (succeeding good) in
        record {
          hash = add_flat (completed_job later run);
          gone =
              keys (key pending queue id)
              ∙ moved_gone queue id complete _ _ _ (text_eq-complete_pending queue id id);
          held = keys (key complete queue id) ∙ moved_held _ _ _ _;
          status_is = refl;
          world_is = world;
        }

module _ {S W D : Type 0} (api : RedisApi S) (reliable : IsReliable api) (database : Database D)
    (q : Queue W) (queue id : Text) (name : String) (h : Handler W) (p : Text) (w : W)
    (clock : ℕ → Instant) where
  -- A visit to the key of a job that has left it changes nothing.
  pub visit-IsEnded :
      (st : KeyState) (status : String) (c : ℕ) (m : Node S W D)
      → IsEnded api queue id name h p w st status c m
      → IsEnded api queue id name h p w st status c (claim api database q queue id clock m).0
  visit-IsEnded st status c m d =
      let same = claim_taken-view api reliable database q queue id clock m d.gone in
      record {
        hash = d.hash;
        gone = same (key pending queue id) ∙ d.gone;
        held = same (key st queue id) ∙ d.held;
        status_is = d.status_is;
        world_is = (claim_taken api database q queue id clock m d.gone).0 ∙ d.world_is;
      }
