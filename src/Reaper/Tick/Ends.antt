-- ===== src/Reaper/Tick/Ends.antt =====
-- How a tick ends (api/reaper.go, `runReaperTick`).
use adele_queue.Base.{
  ℕ, zero, suc, ◌+◌, ◌<◌, ◌≡◌, refl, arith, Bool, List, none, some, Bool-cases, inl, inr,
}
use adele_queue.Base.Text.{Text}
use adele_queue.Time.{Instant}
use adele_queue.Database.{Database}
use adele_queue.Queue.{Queue}
use adele_queue.Redis.{RedisApi, ScanReply, scan_error, scan_malformed, scan_page, any_locked, Node}
use adele_queue.Reaper.Run.{
  Tally, no_tally, reap_keys, reap_pages, run_reaper_tick, ReaperStats, add_tally,
}
use adele_queue.Reaper.Tick.{Counts, IsBalanced, CountsDown}
use adele_queue.Reaper.Tick.Counters.{reap_keys-Counts}

-- The replies to SCAN that the loop tells apart.
data Shapes (r : ScanReply) : Type 0 where
  is_error : r ≡ scan_error → Shapes r
  is_malformed : r ≡ scan_malformed → Shapes r
  no_cursor : (ks : List Text) → r ≡ scan_page none ks → Shapes r
  last_page : (ks : List Text) → r ≡ scan_page (some zero) ks → Shapes r
  more_pages : (d : ℕ) (ks : List Text) → r ≡ scan_page (some (suc d)) ks → Shapes r

shapes : (r : ScanReply) → Shapes r
shapes scan_error = is_error refl
shapes scan_malformed = is_malformed refl
shapes (scan_page none ks) = no_cursor ks refl
shapes (scan_page (some zero) ks) = last_page ks refl
shapes (scan_page (some (suc d)) ks) = more_pages d ks refl

Counts-IsBalanced : {n : ℕ} {t t' : Tally} → Counts n t t' → IsBalanced 0 t → IsBalanced 0 t'
Counts-IsBalanced c b = record {
  resolved_scanned = omega (arith, c.once, b.resolved_scanned);
  errors_scanned = omega (arith, c.each, b.errors_scanned);
}

IsBalanced-loosen : {t : Tally} → IsBalanced 0 t → IsBalanced 1 t
IsBalanced-loosen b = record {
  resolved_scanned = b.resolved_scanned;
  errors_scanned = omega (arith, b.errors_scanned);
}

IsBalanced-error : {t : Tally} → IsBalanced 0 t → IsBalanced 1 (record t { errs = t.errs + 1 })
IsBalanced-error b = record {
  resolved_scanned = b.resolved_scanned;
  errors_scanned = omega (arith, b.errors_scanned);
}

module _ {S W D : Type 0} (api : RedisApi S) (database : Database D) (q : Queue W) (rank : ℕ → ℕ)
    (down : CountsDown api rank) where
  -- A loop with fuel above the cursor's rank ends, with balanced counters.
  abbrev Ends : ℕ → (ℕ → Bool) → (ℕ → ℕ → ℕ → Instant) → ℕ → Node S W D → Tally → Type 0
  Ends fuel shutdown clocks cursor n t =
      (n' : Node S W D) × (t' : Tally) × (reap_pages api database q fuel shutdown clocks cursor n t
        ≡ some (n', t'))
      × IsBalanced 1 t'

  reap_pages_end :
      (fuel : ℕ) (shutdown : ℕ → Bool) (clocks : ℕ → ℕ → ℕ → Instant) (cursor : ℕ) (n : Node S W D)
      (t : Tally)
      → rank cursor < fuel
      → IsBalanced 0 t
      → Ends fuel shutdown clocks cursor n t
  unfolding reap_pages
  reap_pages_end zero shutdown clocks cursor n t h b = absurd (omega arith)
  reap_pages_end (suc fuel) shutdown clocks cursor n t h b = elim (Bool-cases (shutdown 0)) [
    | inl e ↦ rw (e, reap_pages) (n, t, refl, IsBalanced-loosen b)
    | inr e ↦ elim (shapes (api.scan any_locked cursor n.server)) [
      | is_error r ↦ rw (e, r, reap_pages) (n, stopped, refl, IsBalanced-error b)
      | is_malformed r ↦ rw (e, r, reap_pages) (n, stopped, refl, IsBalanced-error b)
      | no_cursor ks r ↦ rw (e, r, reap_pages) (n, stopped, refl, IsBalanced-error b)
      | last_page ks r ↦
          rw (e, r, reap_pages) ((page ks).0, (page ks).1, refl, IsBalanced-loosen (balanced ks))
      | more_pages d ks r ↦
          rw (e, r, reap_pages)
            (reap_pages_end fuel (λ i. shutdown (suc i)) (λ i. clocks (suc i)) (suc d) (page ks).0
              (page ks).1 (omega (arith, down cursor d ks n.server r)) (balanced ks))
    ]
  ]
    where
      stopped : Tally
      stopped = record t { errs = t.errs + 1 }

      page : List Text → Node S W D × Tally
      page ks = reap_keys api database q (clocks 0) ks n t

      balanced : (ks : List Text) → IsBalanced 0 (page ks).1
      balanced ks = Counts-IsBalanced (reap_keys-Counts api database q (clocks 0) ks n t) b

  -- On a server whose cursors of SCAN fall by some rank, a tick whose fuel is above the rank of
  -- cursor 0 ends, whatever `systemShutdown` says and the server answers. It adds to the statistics
  -- the counters that the loop over the pages ends with. In these every scanned key was resolved at
  -- most once, as requeued, failed for good, recent or duplicate, and those and the errors together
  -- are no more than the scanned keys, with one error more for each duplicate at most and one for
  -- the scan itself.
  pub run_reaper_tick_lem :
      (fuel : ℕ) (shutdown : ℕ → Bool) (clocks : ℕ → ℕ → ℕ → Instant) (n : Node S W D)
      (r : ReaperStats)
      → rank 0 < fuel
      → (n' : Node S W D) × (t : Tally) × (reap_pages api database q fuel shutdown clocks 0 n
            no_tally
          ≡ some (n', t))
        × (run_reaper_tick api database q fuel shutdown clocks n r ≡ some (n', add_tally t r))
        × IsBalanced 1 t
  unfolding run_reaper_tick
  run_reaper_tick_lem fuel shutdown clocks n r h =
      let (n', t, e, b) =
        reap_pages_end fuel shutdown clocks 0 n no_tally h
          record { resolved_scanned = ground arith; errors_scanned = ground arith } in
      (n', t, e, rw (e, run_reaper_tick), b)
