-- ===== src/Reaper/Run.antt =====
-- api/reaper.go: one tick of the reaper, and the loop over the ticks.
use adele_queue.Base.{
  ◌||◌, ℕ, zero, suc, ◌+◌, ◌%◌, Bool, true, false, List, [], ◌∷◌, Option, none, some, ltb, length,
  if◌then◌else◌,
}
use adele_queue.Base.Int.{ltb_ℤ}
use adele_queue.Base.Text.{Text}
use adele_queue.Time.{Instant, seconds}
use adele_queue.Job.{Job}
use adele_queue.Database.{Database}
use adele_queue.Queue.{Queue}
use adele_queue.Key.{pending, locked, key, split, ends}
use adele_queue.Redis.{
  RedisApi, RedisError, no_such_key, refused, Reply, value, error, scan_error, scan_malformed,
  scan_page, any_locked, Node, get_redis_value,
}
use adele_queue.Reaper.{
  ReapOutcome, requeued, permafailed, since, lock_start, lock_timeout, requeue_expired_lock,
}

-- The local counters of a tick.
pub record Tally : Type 0 where
  pub scanned : ℕ
  pub requeues : ℕ
  pub permafails : ℕ
  pub recent : ℕ
  pub dupes : ℕ
  pub errs : ℕ

unfoldable pub count_outcome : Option ReapOutcome → Tally → Tally
count_outcome none t = record t { errs = t.errs + 1 }
count_outcome (some requeued) t = record t { requeues = t.requeues + 1 }
count_outcome (some permafailed) t = record t { permafails = t.permafails + 1 }

unfoldable pub count_error : Option RedisError → Tally → Tally
count_error none t = t
count_error (some e) t = record t { errs = t.errs + 1 }

module _ {S W D : Type 0} (api : RedisApi S) (database : Database D) (q : Queue W) where
  -- What follows on the reply to EXISTS: the deletion of a leaked lock, or the requeueing.
  unfoldable pub reap_guarded :
      Text → Text → (ℕ → Instant) → Job W → Reply Bool → Node S W D → Tally → Node S W D × Tally
  reap_guarded queue id clock job reply n t = elim reply [
    | error e ↦ (n, record t { errs = t.errs + 1 })
    | value b ↦
        (if b
          then (let (s, e) = api.del (key locked queue id) n.server in
              (record n { server = s }, count_error e (record t { dupes = t.dupes + 1 })))
          else (let (n', o) =
                requeue_expired_lock api database q queue id (λ i. clock (i + 1)) job
                  (lock_timeout q job) n in
              (n', count_outcome o t)))
  ]

  -- The re-entry guard, and what follows on it.
  unfoldable pub reap_expired :
      Text → Text → (ℕ → Instant) → Job W → Node S W D → Tally → Node S W D × Tally
  unfolding reap_guarded
  reap_expired queue id clock job n t =
      reap_guarded queue id clock job (api.exists (key pending queue id) n.server) n t

  -- A locked job that was read, by its age at `clock 0`.
  unfoldable pub reap_job :
      Text → Text → (ℕ → Instant) → Job W → Option Instant → Node S W D → Tally → Node S W D × Tally
  reap_job queue id clock job none n t = (n, t)
  reap_job queue id clock job (some start) n t =
      if ltb_ℤ (since (clock 0) start) (seconds (lock_timeout q job))
      then (n, record t { recent = t.recent + 1 })
      else reap_expired queue id clock job n t

  unfoldable pub reap_read :
      Text → Text → (ℕ → Instant) → Reply (Job W) → Node S W D → Tally → Node S W D × Tally
  reap_read queue id clock (error no_such_key) n t = (n, t)
  reap_read queue id clock (error refused) n t = (n, record t { errs = t.errs + 1 })
  reap_read queue id clock (value job) n t = reap_job queue id clock job (lock_start job) n t

  -- The body of the loop over the keys; one with fewer than four parts is passed over.
  unfoldable pub reap_key : (ℕ → Instant) → Text → Node S W D → Tally → Node S W D × Tally
  reap_key clock k n t = if ltb (length (split k)) 4 then (n, t) else elim (ends (split k)) [
    | none ↦ (n, t)
    | some (queue, id) ↦
        reap_read queue id clock (get_redis_value api queue id locked n.server) n
          (record t { scanned = t.scanned + 1 })
  ]

  unfoldable pub reap_keys : (ℕ → ℕ → Instant) → List Text → Node S W D → Tally → Node S W D × Tally
  reap_keys clocks [] n t = (n, t)
  reap_keys clocks (k ∷ ks) n t =
      let (n', t') = reap_key (clocks 0) k n t in reap_keys (λ i. clocks (suc i)) ks n' t'

  -- The loop over the pages, from a cursor; `none` where the fuel is used up. `shutdown i` is
  -- `systemShutdown` before the i-th page from here.
  unfoldable pub reap_pages :
      ℕ → (ℕ → Bool) → (ℕ → ℕ → ℕ → Instant) → ℕ → Node S W D → Tally → Option (Node S W D × Tally)
  reap_pages zero shutdown clocks cursor n t = none
  reap_pages (suc fuel) shutdown clocks cursor n t = elim (shutdown 0) [
    | true ↦ some (n, t)
    | false ↦ elim (api.scan any_locked cursor n.server) [
      | scan_error ↦ some (n, record t { errs = t.errs + 1 })
      | scan_malformed ↦ some (n, record t { errs = t.errs + 1 })
      | scan_page next ks ↦ elim next [
        | none ↦ some (n, record t { errs = t.errs + 1 })
        | some c ↦
            (let (n', t') = reap_keys (clocks 0) ks n t in
              elim c [
                | zero ↦ some (n', t')
                | suc d ↦
                    reap_pages fuel (λ i. shutdown (suc i)) (λ i. clocks (suc i)) (suc d) n' t'
              ])
      ]
    ]
  ]

-- `ReaperStats`: counters in 64 bits.
pub record ReaperStats : Type 0 where
  pub ticks : ℕ
  pub scanned_keys : ℕ
  pub requeued_total : ℕ
  pub permafailed_total : ℕ
  pub skipped_recent : ℕ
  pub skipped_dupe_pending : ℕ
  pub errors : ℕ

abbrev pub add_u64 : ℕ → ℕ → ℕ
add_u64 a b = (a + b) % 18446744073709551616

unfoldable pub add_tally : Tally → ReaperStats → ReaperStats
add_tally t r = record {
  ticks = add_u64 r.ticks 1;
  scanned_keys = add_u64 r.scanned_keys t.scanned;
  requeued_total = add_u64 r.requeued_total t.requeues;
  permafailed_total = add_u64 r.permafailed_total t.permafails;
  skipped_recent = add_u64 r.skipped_recent t.recent;
  skipped_dupe_pending = add_u64 r.skipped_dupe_pending t.dupes;
  errors = add_u64 r.errors t.errs;
}

-- The snapshot that `ReaperStats()` takes of the counters of the package: the i-th counter is read
-- from the state `counters i`.
unfoldable pub reaper_stats : (ℕ → ReaperStats) → ReaperStats
reaper_stats counters = record {
  ticks = (counters 0).ticks;
  scanned_keys = (counters 1).scanned_keys;
  requeued_total = (counters 2).requeued_total;
  permafailed_total = (counters 3).permafailed_total;
  skipped_recent = (counters 4).skipped_recent;
  skipped_dupe_pending = (counters 5).skipped_dupe_pending;
  errors = (counters 6).errors;
}

-- Whether a tick logs its counters.
unfoldable pub is_reported : Tally → Bool
is_reported t = ltb 0 t.scanned || ltb 0 t.errs

abbrev pub no_tally : Tally
no_tally = record { scanned = 0; requeues = 0; permafails = 0; recent = 0; dupes = 0; errs = 0 }

module _ {S W D : Type 0} (api : RedisApi S) (database : Database D) (q : Queue W) where
  unfoldable pub run_reaper_tick :
      ℕ
      → (ℕ → Bool)
      → (ℕ → ℕ → ℕ → Instant)
      → Node S W D
      → ReaperStats
      → Option (Node S W D × ReaperStats)
  run_reaper_tick fuel shutdown clocks n r =
      elim (reap_pages api database q fuel shutdown clocks 0 n no_tally) [
        | none ↦ none
        | some (n', t) ↦ some (n', add_tally t r)
      ]
