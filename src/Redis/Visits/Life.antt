-- ===== src/Redis/Visits/Life.antt =====
-- The runs of one job that workers visit again and again (api/redis.go, `cursorScanRedisDb` and
-- `handleRedisJob`).
use mathlib.Core.Path.{subst}
use adele_queue.Base.{
  ℕ, zero, suc, ◌+◌, ◌≤◌, ◌<◌, ◌≡◌, ◌≢◌, refl, arith, String, some, ap, dec_lt, inl, inr, ◌⊎◌,
}
use adele_queue.Base.Text.{Text}
use adele_queue.Time.{Instant}
use adele_queue.Handler.{Outcome, succeeded, failed, panicked, Handler}
use adele_queue.Database.{Database}
use adele_queue.Queue.{Queue}
use adele_queue.Key.{KeyState, pending, complete, key}
use adele_queue.Key
use adele_queue.Key.Split.{NoColon, read_key-key}
use adele_queue.Redis.{RedisApi, IsReliable, Node}
use adele_queue.Redis.Scan.{Flow, claim, scan_key}
use adele_queue.Redis.Visits.{visits, Spaced, Serves, IsWaiting, IsEnded, IsTracked}
use adele_queue.Redis.Visits.Visit.{
  visit_early, visit_retried, visit_failed, visit_completed, visit-IsEnded,
}
use adele_queue.Memory.Attempts.{NeverSucceeds}
use adele_queue.Memory.Attempts.Until.{world_after, SucceedsAfter}

abbrev Succeeded : Outcome → Type 0
Succeeded o = (o ≡ succeeded) ⊎ (o ≢ succeeded)

outcome_cases : (o : Outcome) → Succeeded o
outcome_cases succeeded = inl refl
outcome_cases (failed e) = inr (ground arith)
outcome_cases (panicked e) = inr (ground arith)

module _ {S W D : Type 0} (api : RedisApi S) (reliable : IsReliable api) (database : Database D)
    (q : Queue W) (queue id : Text) (name : String) (h : Handler W) (p : Text) (w : W) (n : ℕ)
    (serves : Serves q name h n) (plain : NoColon queue) (plain_id : NoColon id) where
  scan_key-claim :
      (clock : ℕ → Instant) (s : Node S W D)
      → scan_key api database q (key pending queue id) clock s
        ≡ claim api database q queue id clock s
  unfolding scan_key
  scan_key-claim clock s = rw (read_key-key pending queue id plain plain_id, scan_key) refl

  -- A visit to the key claims its job.
  visits-suc :
      (m : ℕ) (clocks : ℕ → ℕ → Instant) (s : Node S W D)
      → visits api database q (key pending queue id) (suc m) clocks s
        ≡ visits api database q
            (key pending queue id)
            m
            (λ i. clocks (suc i))
            (claim api database q queue id (clocks 0) s).0
  unfolding visits
  visits-suc m clocks s =
      ap
        (λ (r : Node S W D × Flow).
          visits api database q (key pending queue id) m (λ i. clocks (suc i)) r.0)
        (scan_key-claim (clocks 0) s)

  -- After any visits a job that has left its key stands where it stood.
  visits-IsEnded :
      (st : KeyState) (status : String) (c m : ℕ) (clocks : ℕ → ℕ → Instant) (s : Node S W D)
      → IsEnded api queue id name h p w st status c s
      → IsEnded api queue id name h p w st status c
          (visits api database q (key pending queue id) m clocks s)
  unfolding visits
  visits-IsEnded st status c zero clocks s d = d
  visits-IsEnded st status c (suc m) clocks s d = rw (visits-suc m clocks s) (
      visits-IsEnded st status c m (λ i. clocks (suc i))
        (claim api database q queue id (clocks 0) s).0
        (visit-IsEnded api reliable database q queue id name h p w (clocks 0) st status c s d))

  visits-IsTracked_from :
      (m c bound : ℕ) (t : Instant) (clocks : ℕ → ℕ → Instant) (s : Node S W D)
      → IsWaiting api queue id name h p w c c t s
      → c ≤ n
      → c + m ≤ bound
      → IsTracked api queue id name h p w n bound
          (visits api database q (key pending queue id) m clocks s)
  unfolding visits
  visits-IsTracked_from zero c bound t clocks s d le total = inl (c, t, d, le, omega arith)
  visits-IsTracked_from (suc m) c bound t clocks s d le total =
      let next = (claim api database q queue id (clocks 0) s).0 in
      let rest : ℕ → ℕ → Instant = λ i. clocks (suc i) in
      rw (visits-suc m clocks s) (elim (dec_lt t (clocks 0 1)) [
        | no early ↦
            visits-IsTracked_from m c bound t rest next
              (visit_early api reliable database q queue id name h p w n serves c c t (clocks 0) s d
                (omega arith))
              le (omega arith)
        | yes late ↦ elim (outcome_cases (h (some p) s.world).0) [
          | inl good ↦ inr (
              inl (
                suc c,
                visits-IsEnded complete "completed" (suc c) m rest next (
                    visit_completed api reliable database q queue id name h p w n serves c c t
                      (clocks 0) s d late good),
                omega arith,
              ))
          | inr bad ↦ elim (dec_lt c n) [
            | yes lt ↦
                (let again =
                    visit_retried api reliable database q queue id name h p w n serves c c t
                      (clocks 0) s d late lt bad in
                  visits-IsTracked_from m (suc c) bound again.0 rest next again.1 (omega arith)
                    (omega arith))
            | no ge ↦ inr (
                inr (
                  visits-IsEnded Key.failed "failed" (n + 1) m rest next (
                    subst (λ (r : ℕ). IsEnded api queue id name h p w Key.failed "failed" r next)
                      (omega arith)
                      (visit_failed api reliable database q queue id name h p w n serves c c t
                        (clocks 0) s d late (omega arith) bad))))
          ]
        ]
      ])

  -- Whatever the clock and the handler do, a job with `Retry` that waits to run for the first time,
  -- its counter 0, its `RetryAfter` a time, and its hash with a payload and the id that its key
  -- names, is not lost: after any number of visits to its pending key it still waits there, having
  -- run at most `MaxAttempts` times and at most once per visit; or it stands under its completed
  -- key, after at most `MaxAttempts + 1` runs; or under its failed key, after exactly `MaxAttempts
  -- + 1`. The server carries out its commands, the queue serves the job by a plain handler,
  -- `MaxAttempts` is not negative and less than 1000000000, and neither the channel nor the id
  -- holds a colon.
  pub visits-IsTracked :
      (m : ℕ) (t : Instant) (clocks : ℕ → ℕ → Instant) (s : Node S W D)
      → IsWaiting api queue id name h p w 0 0 t s
      → IsTracked api queue id name h p w n m
          (visits api database q (key pending queue id) m clocks s)
  visits-IsTracked m t clocks s d =
      visits-IsTracked_from m 0 m t clocks s d (omega arith) (omega arith)

  -- A job that fails at every run, from its run number `r + 1` on: it runs `e` times in all.
  pub visits_of_never_succeeding :
      (m r c e : ℕ) (t : Instant) (clocks : ℕ → ℕ → Instant) (s : Node S W D)
      → IsWaiting api queue id name h p w r c t s
      → NeverSucceeds h
      → Spaced n clocks
      → t < clocks 0 1
      → c ≤ n
      → n < c + m
      → r + n + 1 ≡ e + c
      → IsEnded api queue id name h p w Key.failed "failed" e
          (visits api database q (key pending queue id) m clocks s)
  visits_of_never_succeeding zero r c e t clocks s d never spaced late le enough sum =
      absurd (omega arith)
  visits_of_never_succeeding (suc m) r c e t clocks s d never spaced late le enough sum =
      let next = (claim api database q queue id (clocks 0) s).0 in
      let rest : ℕ → ℕ → Instant = λ i. clocks (suc i) in
      let bad = never (some p) s.world in
      rw (visits-suc m clocks s) (elim (dec_lt c n) [
        | yes lt ↦
            (let (u, again, soon) =
                visit_retried api reliable database q queue id name h p w n serves r c t (clocks 0)
                  s d late lt bad in
              visits_of_never_succeeding m (suc r) (suc c) e u rest next again never
                (λ i. spaced (suc i)) (omega (arith, soon, spaced 0)) (omega arith) (omega arith)
                (omega arith))
        | no ge ↦ visits-IsEnded Key.failed "failed" e m rest next (
            subst (λ (i : ℕ). IsEnded api queue id name h p w Key.failed "failed" i next)
              (omega arith)
              (visit_failed api reliable database q queue id name h p w n serves r c t (clocks 0) s
                d late (omega arith) bad))
      ])

  -- A job that succeeds at its run number `k + 1`.
  pub visits_of_succeeding_after :
      (k m r c : ℕ) (t : Instant) (clocks : ℕ → ℕ → Instant) (s : Node S W D)
      → IsWaiting api queue id name h p w r c t s
      → SucceedsAfter h (some p) k w
      → Spaced n clocks
      → t < clocks 0 1
      → c + k ≤ n + r
      → r ≤ k
      → k < r + m
      → IsEnded api queue id name h p w complete "completed"
          (k + 1)
          (visits api database q (key pending queue id) m clocks s)
  visits_of_succeeding_after k zero r c t clocks s d until spaced late le below enough =
      absurd (omega arith)
  visits_of_succeeding_after k (suc m) r c t clocks s d until spaced late le below enough =
      let next = (claim api database q queue id (clocks 0) s).0 in
      let rest : ℕ → ℕ → Instant = λ i. clocks (suc i) in
      rw (visits-suc m clocks s) (elim (dec_lt r k) [
        | yes lt ↦
            (let (u, again, soon) =
                visit_retried api reliable database q queue id name h p w n serves r c t (clocks 0)
                  s d late (omega arith) (rw d.world_is (until.fails r lt)) in
              visits_of_succeeding_after k m (suc r) (suc c) u rest next again until
                (λ i. spaced (suc i)) (omega (arith, soon, spaced 0)) (omega arith) (omega arith)
                (omega arith))
        | no ge ↦ visits-IsEnded complete "completed" (k + 1) m rest next (
            subst (λ (i : ℕ). IsEnded api queue id name h p w complete "completed" i next)
              (omega arith)
              (visit_completed api reliable database q queue id name h p w n serves r c t (clocks 0)
                s d late
                (rw d.world_is (
                  subst (λ (i : ℕ). (h (some p) (world_after h (some p) i w)).0 ≡ succeeded)
                    (omega arith) until.succeeds))))
      ])
