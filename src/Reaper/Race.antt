-- ===== src/Reaper/Race.antt =====
-- The reaper of api/reaper.go and a worker of api/redis.go at the same job, command by command.
use adele_queue.Base.{ℕ, ◌+◌, ◌≡◌, refl, ◌∙◌, arith, none, some, if◌then◌else◌}
use adele_queue.Base.Text.{Text, text_eq, text_eq_refl}
use adele_queue.Time.{Instant, format}
use adele_queue.Job.{Job, Hash, zero_hash, scan_struct}
use adele_queue.Database.{Database}
use adele_queue.Queue.{Queue}
use adele_queue.Key.{pending, locked, key}
use adele_queue.Redis.{
  RedisApi, IsReliable, Node, value, locked_at_field, set_redis_key, get_redis_value,
}
use adele_queue.Redis.View.{moved, stored, view, view-hset, view-rename}
use adele_queue.Redis.Scan.{returned, gate, take}
use adele_queue.Reaper.Run.{Tally, count_error, reap_guarded}

module _ {S W D : Type 0} (api : RedisApi S) (reliable : IsReliable api) (database : Database D)
    (q : Queue W) (queue id : Text) where
  -- The hash of a lock that a worker has stamped, and that holds nothing else.
  abbrev blank : Instant → Hash
  blank now = record zero_hash { locked_at = format now }

  abbrev claimed : S → S
  claimed s = (set_redis_key api queue id pending locked s).0

  abbrev deleted : S → S
  deleted s = (api.del (key locked queue id) s).0

  view-deleted :
      (h : Hash) (s : S) (k : Text)
      → view api s (key pending queue id) ≡ some h
      → view api (deleted (claimed s)) k ≡ (
          if text_eq (key locked queue id) k
          then none
          else if text_eq (key pending queue id) k
          then none
          else view api s k)
  unfolding set_redis_key moved
  view-deleted h s k e = ground (
    arith,
    api.get-del (key locked queue id) (claimed s)
        (reliable.del_accepted (key locked queue id) (claimed s)) k,
    view-rename api reliable (key pending queue id) (key locked queue id) s h k e,
  )

  abbrev stamped : (ℕ → Instant) → S → S
  stamped clock s = (api.hset (key locked queue id) (locked_at_field (format (clock 0))) s).0

  view-stamped :
      (clock : ℕ → Instant) (s : S) (k : Text)
      → view api s (key locked queue id) ≡ none
      → view api (stamped clock s) k
        ≡ (if text_eq (key locked queue id) k then some (blank (clock 0)) else view api s k)
  unfolding stored
  view-stamped clock s k e =
      ground (
        arith,
        view-hset api reliable (key locked queue id) (locked_at_field (format (clock 0))) s k,
      )

  read_stamped :
      (clock : ℕ → Instant) (s : S)
      → view api s (key locked queue id) ≡ none
      → get_redis_value api queue id locked (stamped clock s)
        ≡ value (scan_struct {W = W} (blank (clock 0)))
  unfolding get_redis_value
  read_stamped clock s e = ground (
    arith,
    reliable.hgetall_accepted (key locked queue id) (stamped clock s),
    view-stamped clock s (key locked queue id) e,
    text_eq_refl (key locked queue id),
  )

  take_missing :
      (clock : ℕ → Instant) (n : Node S W D)
      → view api n.server (key locked queue id) ≡ none
      → ((k : Text)
          → view api (take api database q queue id clock n).0.server k ≡ (
              if text_eq (key locked queue id) k
              then some (blank (clock 0))
              else view api n.server k))
        × ((take api database q queue id clock n).0.world ≡ n.world)
        × ((take api database q queue id clock n).0.db ≡ n.db)
        × ((take api database q queue id clock n).1 ≡ returned)
  unfolding take gate scan_struct
  take_missing clock n e =
      rw (read_stamped clock n.server e, take)
        (λ k. view-stamped clock n.server k e, refl, refl, refl)

  -- What the reaper and the worker do to the server after the reaper's EXISTS has found the pending
  -- copy of a job whose leaked lock has expired, if the worker's RENAME comes before the reaper's
  -- DEL: the RENAME puts the copy in the place of the leaked lock, and DEL deletes it there. The
  -- worker goes on with an empty hash, which it cannot read a `RetryAfter` from: its function
  -- returns, no handler has run, no row is written, and no key holds the job's hash any longer.
  pub reap_guarded-take_lost :
      (stale : Job W) (h : Hash) (readings clock : ℕ → Instant) (n : Node S W D) (t : Tally)
      → view api n.server (key pending queue id) ≡ some h
      → let reply = api.exists (key pending queue id) n.server in
        let renamed = record n { server = claimed n.server } in
        let (reaped, t') = reap_guarded api database q queue id readings stale reply renamed t in
        let (n', flow) = take api database q queue id clock reaped in
        ((k : Text)
          → view api n'.server k ≡ (
              if text_eq (key locked queue id) k
              then some (blank (clock 0))
              else if text_eq (key pending queue id) k
              then none
              else view api n.server k))
        × (n'.world ≡ n.world)
        × (n'.db ≡ n.db)
        × (flow ≡ returned)
        × (t' ≡ record t { dupes = t.dupes + 1 })
  unfolding reap_guarded count_error
  reap_guarded-take_lost stale h readings clock n t e =
      let lost =
        take_missing clock (record n { server = deleted (claimed n.server) })
          (view-deleted h n.server (key locked queue id) e
            ∙ rw (text_eq_refl (key locked queue id))) in
      rw (reliable.exists_accepted, e, reap_guarded)
        (
          λ k. ground (arith, lost.0 k, view-deleted h n.server k e),
          lost.1,
          lost.2,
          lost.3,
          rw (reliable.del_accepted),
        )
