-- ===== src/Redis/Scan/Claim.antt =====
-- What a redis worker does with a key that it finds (api/redis.go, `cursorScanRedisDb`).
use mathlib.Core.Path.{fun_ext}
use adele_queue.Base.{◌+◌, lt→ltb, le→ltb, ℕ, ◌≤◌, ◌<◌, ◌≡◌, refl, ap, ◌∙◌, arith, none, some}
use adele_queue.Base.Text.{Text, text_eq_refl}
use adele_queue.Time.{Instant, format, parse}
use adele_queue.Job.{Hash, scan_struct}
use adele_queue.Database.{Database}
use adele_queue.Queue.{Queue}
use adele_queue.Key.{pending, locked, key}
use adele_queue.Redis.{
  RedisApi, IsReliable, Node, value, locked_at_field, set_redis_key, get_redis_value,
}
use adele_queue.Redis.View.{Keyspace, moved, stored, view, moved-moved, view-hset, view-rename}
use adele_queue.Redis.Handle.{call_handler}
use adele_queue.Redis.Handle.Transitions.{transition, handle_redis_job-view, handle_redis_job-world}
use adele_queue.Redis.Scan.{proceed, returned, gate, take, claim}

module _ {S W D : Type 0} (api : RedisApi S) (database : Database D) (q : Queue W) (queue id : Text)
    (clock : ℕ → Instant) (n : Node S W D) where
  -- Claiming is exclusive: a key that is no longer pending, because another worker renamed it
  -- first, runs no handler and touches no table; the scan goes on.
  pub claim_taken :
      view api n.server (key pending queue id) ≡ none
      → ((claim api database q queue id clock n).0.world ≡ n.world)
        × ((claim api database q queue id clock n).0.db ≡ n.db)
        × ((claim api database q queue id clock n).1 ≡ proceed)
  unfolding claim set_redis_key
  claim_taken gone =
      ground (arith, api.rename_missing (key pending queue id) (key locked queue id) n.server gone)

-- The hash of a job whose lock was stamped.
abbrev pub locked_hash : (ℕ → Instant) → Hash → Hash
locked_hash clock h = record h { locked_at = format (clock 0) }

module _ {S W D : Type 0} (api : RedisApi S) (reliable : IsReliable api) (database : Database D)
    (q : Queue W) (queue id : Text) (clock : ℕ → Instant) where
  abbrev renamed : S → S
  renamed s = (api.rename (key pending queue id) (key locked queue id) s).0

  abbrev stamped : S → S
  stamped s = (api.hset (key locked queue id) (locked_at_field (format (clock 0))) (renamed s)).0

  -- The keyspace of a job under its lock.
  abbrev claimed : Hash → Keyspace → Keyspace
  claimed h ks = moved (key pending queue id) (key locked queue id) (locked_hash clock h) ks

  view-stamped :
      (h : Hash) (s : S) (j : Text)
      → view api s (key pending queue id) ≡ some h
      → view api (stamped s) j ≡ claimed h (view api s) j
  unfolding moved stored
  view-stamped h s j e = ground (
    arith,
    view-hset api reliable (key locked queue id) (locked_at_field (format (clock 0))) (renamed s) j,
    view-rename api reliable (key pending queue id) (key locked queue id) s h j e,
    view-rename api reliable (key pending queue id) (key locked queue id) s h (key locked queue id)
        e,
    text_eq_refl (key locked queue id),
  )

  held :
      (h : Hash) (s : S)
      → view api s (key pending queue id) ≡ some h
      → view api (stamped s) (key locked queue id) ≡ some (locked_hash clock h)
  unfolding moved
  held h s e = view-stamped h s (key locked queue id) e ∙ rw (text_eq_refl (key locked queue id))

  read_stamped :
      (h : Hash) (s : S)
      → view api s (key pending queue id) ≡ some h
      → get_redis_value api queue id locked (stamped s)
        ≡ value (scan_struct {W = W} (locked_hash clock h))
  unfolding get_redis_value moved
  read_stamped h s e = ground (
    arith,
    reliable.hgetall_accepted (key locked queue id) (stamped s),
    view-stamped h s (key locked queue id) e,
    text_eq_refl (key locked queue id),
  )

  claim_steps :
      (h : Hash) (n : Node S W D)
      → view api n.server (key pending queue id) ≡ some h
      → claim api database q queue id clock n
        ≡ gate api database q queue id clock
            (scan_struct (locked_hash clock h))
            (parse h.retry_after)
            (record n { server = stamped n.server })
  unfolding claim take set_redis_key scan_struct
  claim_steps h n e = ground (
    arith,
    reliable.rename_accepted (key pending queue id) (key locked queue id) n.server h e,
    read_stamped h n.server e,
  )

  -- On a server that carries out its commands, a pending job whose time has come, and whose hash
  -- holds the id that its key names, runs under its lock: the keyspace changes by the transition of
  -- the handler's verdict, from the one in which the job stands locked and stamped.
  pub claim_due :
      (h : Hash) (t : Instant) (n : Node S W D)
      → view api n.server (key pending queue id) ≡ some h
      → parse h.retry_after ≡ some t
      → t < clock 1
      → h.id ≡ id
      → ((j : Text)
          → view api (claim api database q queue id clock n).0.server j
            ≡ transition q queue id
                (λ i. clock (i + 2))
                (call_handler q (scan_struct (locked_hash clock h)) n.world).0
                (scan_struct (locked_hash clock h))
                (claimed h (view api n.server))
                j)
        × ((claim api database q queue id clock n).1 ≡ proceed)
  unfolding gate scan_struct
  claim_due h t n e at_t due same =
      rw (claim_steps h n e, at_t, lt→ltb t (clock 1) due)
        (
          λ j.
              handle_redis_job-view api reliable database q queue id (λ i. clock (i + 2))
                (scan_struct (locked_hash clock h)) (record n { server = stamped n.server }) same j
              ∙ ap
                  (λ (ks : Keyspace).
                    transition q queue id (λ i. clock (i + 2))
                      (call_handler q (scan_struct (locked_hash clock h)) n.world).0
                      (scan_struct (locked_hash clock h)) ks j)
                  (fun_ext (λ k. view-stamped h n.server k e)),
          refl,
        )

  pub claim_due-world :
      (h : Hash) (t : Instant) (n : Node S W D)
      → view api n.server (key pending queue id) ≡ some h
      → parse h.retry_after ≡ some t
      → t < clock 1
      → (claim api database q queue id clock n).0.world
        ≡ (call_handler q (scan_struct (locked_hash clock h)) n.world).1
  unfolding gate
  claim_due-world h t n e at_t due =
      rw (claim_steps h n e, at_t, lt→ltb t (clock 1) due)
        (handle_redis_job-world api reliable database q queue id (λ i. clock (i + 2))
          (scan_struct (locked_hash clock h)) (record n { server = stamped n.server }))

  pub claim_taken-view :
      (n : Node S W D)
      → view api n.server (key pending queue id) ≡ none
      → (j : Text)
      → view api (claim api database q queue id clock n).0.server j ≡ view api n.server j
  unfolding claim set_redis_key
  claim_taken-view n gone j = ground (
    arith,
    api.rename_missing (key pending queue id) (key locked queue id) n.server gone,
    reliable.rename_rejected (key pending queue id) (key locked queue id) n.server gone j,
  )

  -- On a server that carries out its commands, a pending job that is early goes back to its pending
  -- key, with the stamp of the lock, and nothing runs.
  pub claim_early :
      (h : Hash) (t : Instant) (n : Node S W D)
      → view api n.server (key pending queue id) ≡ some h
      → parse h.retry_after ≡ some t
      → clock 1 ≤ t
      → ((j : Text)
          → view api (claim api database q queue id clock n).0.server j
            ≡ moved
                (key locked queue id)
                (key pending queue id)
                (locked_hash clock h)
                (view api n.server)
                j)
        × ((claim api database q queue id clock n).0.world ≡ n.world)
        × ((claim api database q queue id clock n).1 ≡ proceed)
  unfolding gate set_redis_key
  claim_early h t n e at_t early =
      rw (claim_steps h n e, at_t, le→ltb t (clock 1) early)
        (
          λ j.
              view-rename api reliable (key locked queue id) (key pending queue id)
                (stamped n.server) (locked_hash clock h) j (held h n.server e)
              ∙ ap
                  (λ (ks : Keyspace).
                    moved (key locked queue id) (key pending queue id) (locked_hash clock h) ks j)
                  (fun_ext (λ k. view-stamped h n.server k e))
              ∙ moved-moved (key pending queue id) (key locked queue id) (locked_hash clock h)
                  (view api n.server) j,
          refl,
          ground (
            arith,
            reliable.rename_accepted (key locked queue id) (key pending queue id) (stamped n.server)
                (locked_hash clock h) (held h n.server e),
          ),
        )

  -- On a server that carries out its commands, a pending job whose `RetryAfter` does not parse ends
  -- up under its lock, nothing runs, and the scan's function returns.
  pub claim_unreadable :
      (h : Hash) (n : Node S W D)
      → view api n.server (key pending queue id) ≡ some h
      → parse h.retry_after ≡ none
      → ((j : Text)
          → view api (claim api database q queue id clock n).0.server j
            ≡ claimed h (view api n.server) j)
        × ((claim api database q queue id clock n).0.world ≡ n.world)
        × ((claim api database q queue id clock n).1 ≡ returned)
  unfolding gate
  claim_unreadable h n e unreadable =
      rw (claim_steps h n e, unreadable) (λ j. view-stamped h n.server j e, refl, refl)
