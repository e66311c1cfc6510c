-- ===== src/Reaper/Tick/Counters.antt =====
-- What the keys of a page do to the counters of a tick (api/reaper.go, `runReaperTick`).
use adele_queue.Base.{
  ℕ, suc, ◌+◌, arith, List, [], ◌∷◌, Option, none, some, ltb, length, Bool-cases, Option-cases, inl,
  inr,
}
use adele_queue.Base.Int.{ltb_ℤ}
use adele_queue.Base.Text.{Text}
use adele_queue.Time.{Instant, seconds}
use adele_queue.Job.{Job}
use adele_queue.Database.{Database}
use adele_queue.Queue.{Queue}
use adele_queue.Key.{locked, split, ends}
use adele_queue.Redis.{
  RedisApi, RedisError, no_such_key, refused, Reply, value, error, Node, get_redis_value,
}
use adele_queue.Reaper.{ReapOutcome, requeued, permafailed, since, lock_timeout, lock_start}
use adele_queue.Reaper.Run.{
  Tally, count_outcome, count_error, reap_expired, reap_job, reap_read, reap_key, reap_keys,
}
use adele_queue.Reaper.Tick.{Counts}

Counts-chain : {n : ℕ} {t u v : Tally} → Counts 1 t u → Counts n u v → Counts (suc n) t v
Counts-chain a b = record {
  within = omega (arith, a.within, b.within);
  each = omega (arith, a.each, b.each);
  once = omega (arith, a.once, b.once);
}

count_outcome-Counts :
    (o : Option ReapOutcome) (t : Tally)
    → Counts 1 t (count_outcome o (record t { scanned = t.scanned + 1 }))
unfolding count_outcome
count_outcome-Counts none t = record {
  within = ground arith;
  each = ground arith;
  once = ground arith;
}
count_outcome-Counts (some requeued) t = record {
  within = ground arith;
  each = ground arith;
  once = ground arith;
}
count_outcome-Counts (some permafailed) t = record {
  within = ground arith;
  each = ground arith;
  once = ground arith;
}

count_error-Counts :
    (e : Option RedisError) (t : Tally)
    → Counts 1 t (count_error e (record t { scanned = t.scanned + 1; dupes = t.dupes + 1 }))
unfolding count_error
count_error-Counts none t = record {
  within = ground arith;
  each = ground arith;
  once = ground arith;
}
count_error-Counts (some e) t = record {
  within = ground arith;
  each = ground arith;
  once = ground arith;
}

module _ {S W D : Type 0} (api : RedisApi S) (database : Database D) (q : Queue W) where
  reap_expired-Counts :
      (queue id : Text) (clock : ℕ → Instant) (job : Job W) (n : Node S W D) (t : Tally)
      → Counts 1 t
          (reap_expired api database q queue id clock job n
            (record t { scanned = t.scanned + 1 })).1
  unfolding reap_expired count_outcome count_error
  reap_expired-Counts queue id clock job n t = record {
    within = ground arith;
    each = ground arith;
    once = ground arith;
  }

  reap_job-Counts :
      (queue id : Text) (clock : ℕ → Instant) (job : Job W) (start : Option Instant)
      (n : Node S W D) (t : Tally)
      → Counts 1 t
          (reap_job api database q queue id clock job start n
            (record t { scanned = t.scanned + 1 })).1
  unfolding reap_job
  reap_job-Counts queue id clock job none n t = record {
    within = ground arith;
    each = ground arith;
    once = ground arith;
  }
  reap_job-Counts queue id clock job (some start) n t =
      elim (Bool-cases (ltb_ℤ (since (clock 0) start) (seconds (lock_timeout q job)))) [
        | inl e ↦ rw e record { within = ground arith; each = ground arith; once = ground arith }
        | inr e ↦ rw e (reap_expired-Counts queue id clock job n t)
      ]

  reap_read-Counts :
      (queue id : Text) (clock : ℕ → Instant) (r : Reply (Job W)) (n : Node S W D) (t : Tally)
      → Counts 1 t
          (reap_read api database q queue id clock r n (record t { scanned = t.scanned + 1 })).1
  unfolding reap_read
  reap_read-Counts queue id clock (error no_such_key) n t = record {
    within = ground arith;
    each = ground arith;
    once = ground arith;
  }
  reap_read-Counts queue id clock (error refused) n t = record {
    within = ground arith;
    each = ground arith;
    once = ground arith;
  }
  reap_read-Counts queue id clock (value job) n t =
      reap_job-Counts queue id clock job (lock_start job) n t

  reap_key-Counts :
      (clock : ℕ → Instant) (k : Text) (n : Node S W D) (t : Tally)
      → Counts 1 t (reap_key api database q clock k n t).1
  unfolding reap_key
  reap_key-Counts clock k n t = elim (Bool-cases (ltb (length (split k)) 4)) [
    | inl e ↦ rw e record { within = ground arith; each = ground arith; once = ground arith }
    | inr e ↦ elim (Option-cases (ends (split k))) [
      | inl o ↦ rw (e, o) record { within = ground arith; each = ground arith; once = ground arith }
      | inr ((queue, id), o) ↦
          rw (e, o)
            (reap_read-Counts queue id clock (get_redis_value api queue id locked n.server) n t)
    ]
  ]

  pub reap_keys-Counts :
      (clocks : ℕ → ℕ → Instant) (ks : List Text) (n : Node S W D) (t : Tally)
      → Counts (length ks) t (reap_keys api database q clocks ks n t).1
  unfolding reap_keys
  reap_keys-Counts clocks [] n t = record {
    within = ground arith;
    each = ground arith;
    once = ground arith;
  }
  reap_keys-Counts clocks (k ∷ ks) n t = Counts-chain (reap_key-Counts (clocks 0) k n t) (
      reap_keys-Counts (λ i. clocks (suc i)) ks (reap_key api database q (clocks 0) k n t).0
        (reap_key api database q (clocks 0) k n t).1)
