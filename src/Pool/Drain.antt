-- ===== src/Pool/Drain.antt =====
-- How the redis workers of a queue end after `Close` (api/queue.go).
use adele_queue.Base.{
  ℕ, zero, suc, ◌+◌, ◌≤◌, ◌<◌, ◌≡◌, ◌≢◌, ◌∙◌, ◌⊎◌, inl, inr, refl, ap, arith, true, List, [], ◌∷◌,
  ◌++◌, Option, none, some,
}
use mathlib.Core.Path.{subst}
use adele_queue.Base.Int.{pos_part}
use adele_queue.Time.{Instant}
use adele_queue.Database.{Database}
use adele_queue.Queue.{Queue}
use adele_queue.Redis.{
  RedisApi, Node, ScanReply, scan_error, scan_malformed, scan_page, any_pending,
}
use adele_queue.Redis.Scan.{
  Flow, proceed, returned, crashed, Worker, scanning, sleeping, paging, ended, dead, unwind,
  after_page, scan_keys, scan_reply, scan_round,
}
use adele_queue.Pool.{
  Pool, replicate, started, listen, close_redis, IsGoing, Turn, turn, Turns, none_left, one_more,
  steps_left, outstanding, pages_left, pages,
}

outstanding-append :
    (ws vs : List Worker) → outstanding (ws ++ vs) ≡ outstanding ws + outstanding vs
outstanding-append [] vs = omega arith
outstanding-append (w ∷ ws) vs = omega (arith, outstanding-append ws vs)

pages-append : (ws vs : List Worker) → pages (ws ++ vs) ≡ pages ws + pages vs
pages-append [] vs = omega arith
pages-append (w ∷ ws) vs = omega (arith, pages-append ws vs)

-- What a worker has left when its innermost call returns, after a page, and after a SCAN.
unwind_left :
    (frames : ℕ) → (steps_left (unwind frames) ≡ frames) × (pages_left (unwind frames) ≡ 0)
unfolding unwind
unwind_left zero = (refl, refl)
unwind_left (suc frames) = (omega arith, refl)

after_page_left :
    (frames : ℕ) (cursor : Option ℕ) (f : Flow)
    → (steps_left (after_page frames cursor f) ≤ frames + 2)
      × (pages_left (after_page frames cursor f) ≡ 0)
unfolding after_page
after_page_left frames none proceed = (omega arith, refl)
after_page_left frames (some zero) proceed = (omega arith, refl)
after_page_left frames (some (suc c)) proceed = (omega arith, refl)
after_page_left frames none returned =
    (omega (arith, (unwind_left frames).0), (unwind_left frames).1)
after_page_left frames (some c) returned =
    (omega (arith, (unwind_left frames).0), (unwind_left frames).1)
after_page_left frames none crashed = (omega arith, refl)
after_page_left frames (some c) crashed = (omega arith, refl)

scan_reply_left :
    (frames : ℕ) (r : ScanReply)
    → (steps_left (scan_reply frames r) ≤ frames + 3) × (pages_left (scan_reply frames r) ≤ 1)
unfolding scan_reply
scan_reply_left frames scan_error =
    (omega (arith, (unwind_left frames).0), omega (arith, (unwind_left frames).1))
scan_reply_left frames scan_malformed =
    (omega (arith, (unwind_left frames).0), omega (arith, (unwind_left frames).1))
scan_reply_left frames (scan_page cursor ks) = (omega arith, omega arith)

-- What a step after `Close` does: it changes the surroundings only by a page, of which it leaves
-- one less.
abbrev Falls : {S W D : Type 0} → Node S W D → Node S W D → ℕ → ℕ → ℕ → ℕ → Type 0
Falls n n' steps steps' count count' =
    (steps' < steps) × (((n' ≡ n) × (count' ≤ count)) ⊎ (count' < count))

module _ {S W D : Type 0} (api : RedisApi S) (database : Database D) (q : Queue W) where
  round-Falls :
      (clocks : ℕ → ℕ → Instant) (n : Node S W D) (v : Worker)
      → IsGoing v
      → let (n', w) = scan_round api database q true clocks n v in
        Falls n n' (steps_left v) (steps_left w) (pages_left v) (pages_left w)
  unfolding scan_round
  round-Falls clocks n (scanning frames cursor) g =
      let (a, b) = unwind_left frames in (omega (arith, a), inl (refl, omega (arith, b)))
  round-Falls clocks n (sleeping frames cursor) g =
      let (a, b) = scan_reply_left frames (api.scan any_pending cursor n.server) in
      (omega (arith, a), inl (refl, b))
  round-Falls clocks n (paging frames cursor ks) g =
      let (a, b) = after_page_left frames cursor (scan_keys api database q clocks ks n).1 in
      (omega (arith, a), inr (omega (arith, b)))
  round-Falls clocks n ended g = absurd g
  round-Falls clocks n dead g = absurd g

  Turn-Falls :
      {n n' : Node S W D} {ws ws' : List Worker}
      → Turn api database q true n n' ws ws'
      → Falls n n' (outstanding ws) (outstanding ws') (pages ws) (pages ws')
  Turn-Falls {n} (turn before after v w clocks e g r e') =
      let (a, b) =
        subst
          (λ (p : Node S W D × Worker).
            Falls n p.0 (steps_left v) (steps_left p.1) (pages_left v) (pages_left p.1))
          r (round-Falls clocks n v g) in
      let paged = pages-append before (v ∷ after) in
      let paged' = pages-append before (w ∷ after) in
      rw (e, e')
        (
          omega (
            arith,
            a,
            outstanding-append before (v ∷ after),
            outstanding-append before (w ∷ after),
          ),
          elim b [
            | inl (same, c) ↦ inl (same, omega (arith, c, paged, paged'))
            | inr c ↦ inr (omega (arith, c, paged, paged'))
          ],
        )

  Turns-Falls :
      {k : ℕ} {n n' : Node S W D} {ws ws' : List Worker}
      → Turns api database q true k n n' ws ws'
      → (outstanding ws' + k ≤ outstanding ws)
        × (((n' ≡ n) × (pages ws' ≤ pages ws)) ⊎ (pages ws' < pages ws))
  Turns-Falls (none_left n ws) = (omega arith, inl (refl, omega arith))
  Turns-Falls (one_more t ts) =
      let (a, b) = Turn-Falls t in let (c, d) = Turns-Falls ts in (omega (arith, a, c), both b d)
    where
      both :
          {m m' m'' : Node S W D} {x y z : ℕ}
          → ((m' ≡ m) × (y ≤ x)) ⊎ (y < x)
          → ((m'' ≡ m') × (z ≤ y)) ⊎ (z < y)
          → ((m'' ≡ m) × (z ≤ x)) ⊎ (z < x)
      both (inl (e, a)) (inl (e', b)) = inl (e' ∙ e, omega (arith, a, b))
      both (inl (e, a)) (inr b) = inr (omega (arith, a, b))
      both (inr a) (inl (e', b)) = inr (omega (arith, a, b))
      both (inr a) (inr b) = inr (omega (arith, a, b))

  Turn-cons :
      {n n' : Node S W D} {ws ws' : List Worker} (w : Worker)
      → Turn api database q true n n' ws ws'
      → Turn api database q true n n' (w ∷ ws) (w ∷ ws')
  Turn-cons u (turn before after v w clocks e g r e') =
      turn (u ∷ before) after v w clocks (ap (λ l. u ∷ l) e) g r (ap (λ l. u ∷ l) e')

  -- A worker that is going can make its step.
  abbrev Next : Node S W D → List Worker → Type 0
  Next n ws = (n' : Node S W D) × (ws' : List Worker) × Turn api database q true n n' ws ws'

  Next-first : (n : Node S W D) (v : Worker) (ws : List Worker) → IsGoing v → Next n (v ∷ ws)
  Next-first n v ws g =
      let (n', w) = scan_round api database q true (λ i j. 0) n v in
      (n', w ∷ ws, turn [] ws v w (λ i j. 0) refl g refl refl)

  Next-later : (n : Node S W D) (v : Worker) (ws : List Worker) → Next n ws → Next n (v ∷ ws)
  Next-later n v ws (n', ws', t) = (n', v ∷ ws', Turn-cons v t)

  Turn-of_outstanding : (n : Node S W D) (ws : List Worker) → outstanding ws ≢ 0 → Next n ws
  Turn-of_outstanding n [] h = absurd (h refl)
  Turn-of_outstanding n (scanning frames cursor ∷ ws) h =
      Next-first n (scanning frames cursor) ws tt
  Turn-of_outstanding n (sleeping frames cursor ∷ ws) h =
      Next-first n (sleeping frames cursor) ws tt
  Turn-of_outstanding n (paging frames cursor ks ∷ ws) h =
      Next-first n (paging frames cursor ks) ws tt
  Turn-of_outstanding n (ended ∷ ws) h =
      Next-later n ended ws (Turn-of_outstanding n ws (λ e. h (omega (arith, e))))
  Turn-of_outstanding n (dead ∷ ws) h =
      Next-later n dead ws (Turn-of_outstanding n ws (λ e. h (omega (arith, e))))

module _ {S W D : Type 0} (api : RedisApi S) (database : Database D) (q : Queue W) (p : Pool) where
  -- After `Close`, in whatever order the workers go on: each step takes at least one from the
  -- steps that they have left, which are at most one for each call of the scan that is under way
  -- and three more for each worker that had passed the check of `systemShutdown` by then; and as
  -- long as some are left a worker can make one, so that the pool is drained. The server, the
  -- tables and the world of the handlers are as they were, unless fewer workers than at the close
  -- have a page before them, which one that had passed the check was about to fetch or had
  -- fetched; there are never more of these, so that where no worker had passed the check nothing
  -- is touched any more.
  pub close_redis-Turns :
      {k : ℕ} {n n' : Node S W D} {ws : List Worker}
      → Turns api database
          (close_redis q p).0
          (close_redis q p).1.shutdown
          k
          n
          n'
          (close_redis q p).1.redis_workers
          ws
      → (outstanding ws + k ≤ outstanding p.redis_workers)
        × (((n' ≡ n) × (pages ws ≤ pages p.redis_workers)) ⊎ (pages ws < pages p.redis_workers))
        × (outstanding ws ≢ 0
            → (n'' : Node S W D) × (ws' : List Worker) × Turn api database
                (close_redis q p).0
                (close_redis q p).1.shutdown
                n'
                n''
                ws
                ws')
  unfolding close_redis
  close_redis-Turns {n'} {ws} ts =
      let (counted, same) = Turns-Falls api database (record q { cancelled = true }) ts in
      (counted, same, Turn-of_outstanding api database (record q { cancelled = true }) n' ws)

  -- `systemShutdown` is never reset. In a process that has closed a redis queue, `Listen` on any
  -- redis queue with a pool starts workers that end in their first round, before any SCAN.
  pub listen-close_redis :
      (q' : Queue W) (clocks : ℕ → ℕ → Instant) (n : Node S W D)
      → q'.backend ≡ "redis"
      → q'.redis.pool ≡ true
      → let (_, closed) = close_redis q p in
        ((listen q' closed).redis_workers
          ≡ p.redis_workers ++ replicate (pos_part q'.worker_count) (started q'))
        × (scan_round api database q' (listen q' closed).shutdown clocks n (started q')
            ≡ (n, ended))
  unfolding close_redis listen scan_round unwind
  listen-close_redis q' clocks n redis pool = rw (redis, pool) (refl, refl)
