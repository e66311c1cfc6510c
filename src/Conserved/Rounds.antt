-- ===== src/Conserved/Rounds.antt =====
-- The rounds of a redis worker and the ticks of the reaper, as the operations that they consist of
-- (api/redis.go, `cursorScanRedisDb`, and api/reaper.go, `runReaperTick`).
use adele_queue.Base.{
  Bool, true, false, ℕ, zero, suc, ◌≡◌, refl, List, [], ◌∷◌, Option, none, some, Bool-cases,
  Option-cases, ◌⊎◌, inl, inr,
}
use mathlib.Core.Path.{subst}
use adele_queue.Base.Text.{Text}
use adele_queue.Time.{Instant}
use adele_queue.Database.{Database}
use adele_queue.Queue.{Queue}
use adele_queue.Redis.{RedisApi, Node, ScanReply, scan_error, scan_malformed, scan_page, any_locked}
use adele_queue.Redis.Scan.{
  Flow, proceed, returned, crashed, Worker, scanning, sleeping, paging, ended, dead, scan_key,
  scan_keys, scan_round,
}
use adele_queue.Reaper.Run.{
  Tally, no_tally, ReaperStats, reap_key, reap_keys, reap_pages, run_reaper_tick,
}
use adele_queue.Conserved.Labels.{Labels}
use adele_queue.Conserved.Operations.{Operations, no_operation, and_then, scans, reaps}

Flow-cases : (f : Flow) → (f ≡ proceed) ⊎ (f ≡ returned) ⊎ (f ≡ crashed)
Flow-cases proceed = inl refl
Flow-cases returned = inr (inl refl)
Flow-cases crashed = inr (inr refl)

ScanReply-cases :
    (r : ScanReply)
    → (r ≡ scan_error)
      ⊎ (r ≡ scan_malformed)
      ⊎ ((c : ℕ) × (ks : List Text) × (r ≡ scan_page (some c) ks))
      ⊎ ((ks : List Text) × (r ≡ scan_page none ks))
ScanReply-cases scan_error = inl refl
ScanReply-cases scan_malformed = inr (inl refl)
ScanReply-cases (scan_page (some c) ks) = inr (inr (inl (c, ks, refl)))
ScanReply-cases (scan_page none ks) = inr (inr (inr (ks, refl)))

module _ {S W D : Type 0} (api : RedisApi S) (lower : ℕ → ℕ) (database : Database D)
    (label : Labels) (q : Queue W) where
  after :
      {n n' n'' : Node S W D}
      → Operations api lower database label n n'
      → Operations api lower database label n' n''
      → Operations api lower database label n n''
  after os no_operation = os
  after os (and_then ps p) = and_then (after os ps) p

  scan_keys-Operations :
      (clocks : ℕ → ℕ → Instant) (ks : List Text) (n : Node S W D)
      → Operations api lower database label n (scan_keys api database q clocks ks n).0
  unfolding scan_keys
  scan_keys-Operations clocks [] n = no_operation
  scan_keys-Operations clocks (k ∷ ks) n =
      let first = scan_key api database q k (clocks 0) n in
      let o = and_then no_operation (scans q k (clocks 0) n) in
      elim (Flow-cases first.1) [
        | inl e ↦
            rw (e, scan_keys) (after o (scan_keys-Operations (λ i. clocks (suc i)) ks first.0))
        | inr (inl e) ↦ rw (e, scan_keys) o
        | inr (inr e) ↦ rw (e, scan_keys) o
      ]

  reap_keys-Operations :
      (clocks : ℕ → ℕ → Instant) (ks : List Text) (n : Node S W D) (t : Tally)
      → Operations api lower database label n (reap_keys api database q clocks ks n t).0
  unfolding reap_keys
  reap_keys-Operations clocks [] n t = no_operation
  reap_keys-Operations clocks (k ∷ ks) n t =
      let first = reap_key api database q (clocks 0) k n t in
      after (and_then no_operation (reaps q k (clocks 0) t n))
        (reap_keys-Operations (λ i. clocks (suc i)) ks first.0 first.1)

  scan_round-Operations :
      (shutdown : Bool) (clocks : ℕ → ℕ → Instant) (n : Node S W D) (w : Worker)
      → Operations api lower database label n (scan_round api database q shutdown clocks n w).0
  unfolding scan_round
  scan_round-Operations shutdown clocks n ended = no_operation
  scan_round-Operations shutdown clocks n dead = no_operation
  scan_round-Operations true clocks n (scanning frames cursor) = no_operation
  scan_round-Operations false clocks n (scanning frames cursor) = no_operation
  scan_round-Operations shutdown clocks n (sleeping frames cursor) = no_operation
  scan_round-Operations shutdown clocks n (paging frames cursor ks) =
      scan_keys-Operations clocks ks n

  -- Where a tick ends, it has made a sequence of operations.
  abbrev pub Leads : {R : Type 0} → Node S W D → Option (Node S W D × R) → Type 0
  Leads n none = Unit
  Leads n (some (n', r)) = Operations api lower database label n n'

  after-Leads :
      {R : Type 0} {n n' : Node S W D} (o : Option (Node S W D × R))
      → Operations api lower database label n n'
      → Leads n' o
      → Leads n o
  after-Leads none os l = tt
  after-Leads (some (n'', r)) os l = after os l

  reap_pages-Leads :
      (fuel : ℕ) (shutdown : ℕ → Bool) (clocks : ℕ → ℕ → ℕ → Instant) (cursor : ℕ) (n : Node S W D)
      (t : Tally)
      → Leads n (reap_pages api database q fuel shutdown clocks cursor n t)
  unfolding reap_pages
  reap_pages-Leads zero shutdown clocks cursor n t = tt
  reap_pages-Leads (suc fuel) shutdown clocks cursor n t = elim (Bool-cases (shutdown 0)) [
    | inl down ↦ rw (down, reap_pages) no_operation
    | inr up ↦ elim (ScanReply-cases (api.scan any_locked cursor n.server)) [
      | inl e ↦ rw (up, e, reap_pages) no_operation
      | inr (inl e) ↦ rw (up, e, reap_pages) no_operation
      | inr (inr (inr (ks, e))) ↦ rw (up, e, reap_pages) no_operation
      | inr (inr (inl (zero, ks, e))) ↦
          rw (up, e, reap_pages) (reap_keys-Operations (clocks 0) ks n t)
      | inr (inr (inl (suc d, ks, e))) ↦
          let page = reap_keys api database q (clocks 0) ks n t in
          rw (up, e, reap_pages)
            (after-Leads
              (reap_pages api database q fuel (λ i. shutdown (suc i)) (λ i. clocks (suc i)) (suc d)
                page.0 page.1)
              (reap_keys-Operations (clocks 0) ks n t)
              (reap_pages-Leads fuel (λ i. shutdown (suc i)) (λ i. clocks (suc i)) (suc d) page.0
                page.1))
    ]
  ]

  run_reaper_tick-Leads :
      (fuel : ℕ) (shutdown : ℕ → Bool) (clocks : ℕ → ℕ → ℕ → Instant) (n : Node S W D)
      (r : ReaperStats)
      → Leads n (run_reaper_tick api database q fuel shutdown clocks n r)
  unfolding run_reaper_tick
  run_reaper_tick-Leads fuel shutdown clocks n r =
      elim (Option-cases (reap_pages api database q fuel shutdown clocks 0 n no_tally)) [
        | inl e ↦ rw (e, run_reaper_tick) tt
        | inr (end, e) ↦
            rw (e, run_reaper_tick)
              (subst (Leads n) e (reap_pages-Leads fuel shutdown clocks 0 n no_tally))
      ]

  -- The code's own units consist of whole operations, so that what every sequence of operations
  -- keeps they keep: a step of a worker, in any state, whatever SCAN has replied and however its
  -- handlers end, and a tick of the reaper that ends.
  pub rounds-Operations :
      (n : Node S W D) (shutdown : Bool) (clocks : ℕ → ℕ → Instant) (w : Worker) (fuel : ℕ)
      (readings : ℕ → Bool) (ticks : ℕ → ℕ → ℕ → Instant) (r : ReaperStats)
      → Operations api lower database label n (scan_round api database q shutdown clocks n w).0
        × Leads n (run_reaper_tick api database q fuel readings ticks n r)
  rounds-Operations n shutdown clocks w fuel readings ticks r =
      (scan_round-Operations shutdown clocks n w, run_reaper_tick-Leads fuel readings ticks n r)
