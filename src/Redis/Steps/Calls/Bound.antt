-- ===== src/Redis/Steps/Calls/Bound.antt =====
-- The calls of the handler of one job over all interleavings of its workers (api/redis.go).
use adele_queue.Base.{
  ℕ, ◌+◌, ◌≤◌, ◌<◌, ◌≡◌, ◌≢◌, refl, sym, ap, ◌∙◌, arith, false, none, some, Bool-cases, inl, inr,
  ◌==◌,
}
use adele_queue.Base.Int.{pos}
use adele_queue.Base.Text.{Text}
use adele_queue.Time.{Instant}
use adele_queue.Job.{Hash}
use adele_queue.Database.{Database}
use adele_queue.Queue.{Queue}
use adele_queue.Key.{pending, locked, key}
use adele_queue.Redis.{RedisApi, IsReliable, Node}
use adele_queue.Redis.View.{view}
use adele_queue.Redis.Steps.{
  Place, arriving, renamed, stamped, loaded, marked, called, moving, finished, step,
}
use adele_queue.Redis.Steps.Pending.{claim_missing}
use adele_queue.Redis.Steps.System.{
  holding, update, tally, System, Move, stepped, returned_to, elsewhere, Reach, here, next,
}
use adele_queue.Redis.Steps.Exclusive.{IsExclusive, Reach-IsExclusive, Move-IsExclusive}
use adele_queue.Redis.Steps.Calls.{Carries, IsCounted}
use adele_queue.Redis.Steps.Calls.Step.{step-IsCounted}

module _ {S : Type 0} (api : RedisApi S) (queue id : Text) (n calls : ℕ) where
  Carries-free :
      {W : Type 0} (at : Place W) (s : S) → holding at ≡ false → Carries api queue id n at s calls
  unfolding holding
  Carries-free arriving s e = tt
  Carries-free (finished f) s e = tt
  Carries-free renamed s e = absurd (ground (arith, e))
  Carries-free stamped s e = absurd (ground (arith, e))
  Carries-free (loaded job) s e = absurd (ground (arith, e))
  Carries-free (marked job) s e = absurd (ground (arith, e))
  Carries-free (called v job) s e = absurd (ground (arith, e))
  Carries-free (moving new job) s e = absurd (ground (arith, e))

  Carries-same :
      {W : Type 0} (at : Place W) (s t : S)
      → view api t (key locked queue id) ≡ view api s (key locked queue id)
      → Carries api queue id n at s calls
      → Carries api queue id n at t calls
  Carries-same arriving s t e c = tt
  Carries-same (finished f) s t e c = tt
  Carries-same renamed s t e (x, held, counts) = (x, e ∙ held, counts)
  Carries-same stamped s t e (x, held, counts) = (x, e ∙ held, counts)
  Carries-same (loaded job) s t e ((x, held, counts), own) = ((x, e ∙ held, counts), own)
  Carries-same (marked job) s t e c = c
  Carries-same (called v job) s t e c = c
  Carries-same (moving new job) s t e c = c

module _ {S W D : Type 0} (api : RedisApi S) (reliable : IsReliable api) (database : Database D)
    (q : Queue W) (queue id : Text) (n : ℕ) where
  -- A worker that finds the pending key gone changes no key and calls nothing.
  step_same :
      (at : Place W) (clock : ℕ → Instant) (m : Node S W D) (calls : ℕ)
      → view api m.server (key pending queue id) ≡ none
      → holding at ≡ false
      → (view api (step api database q queue id clock at m).0.server (key locked queue id)
          ≡ view api m.server (key locked queue id))
        × (tally at calls ≡ calls)
  unfolding step holding
  step_same arriving clock m calls gone e =
      ((claim_missing api reliable queue id m.server gone).1 (key locked queue id), refl)
  step_same (finished f) clock m calls gone e = (refl, refl)
  step_same renamed clock m calls gone e = absurd (ground (arith, e))
  step_same stamped clock m calls gone e = absurd (ground (arith, e))
  step_same (loaded job) clock m calls gone e = absurd (ground (arith, e))
  step_same (marked job) clock m calls gone e = absurd (ground (arith, e))
  step_same (called v job) clock m calls gone e = absurd (ground (arith, e))
  step_same (moving new job) clock m calls gone e = absurd (ground (arith, e))

  -- The place of worker `j` after worker `i` goes to `at`.
  placed :
      (P : Place W → Type 0) (f : ℕ → Place W) (i : ℕ) (at : Place W) (j : ℕ)
      → P at
      → (i ≢ j → P (f j))
      → P (update f i at j)
  placed P f i at j own other = elim (Bool-cases (i == j)) [
    | inl same ↦ rw same own
    | inr different ↦ rw different (other (ground (arith, different)))
  ]

  -- Every worker has counted the calls.
  record AllCounted (s : System S W D) : Type 0 where
    exclusive : IsExclusive api queue id s
    counted : (i : ℕ) → IsCounted api queue id n (s.places i) s.node s.calls

  module _ (limit : q.max_attempts ≡ pos n) (small : n < 9223372036854775807) where
    -- What the other workers know after a step of worker `i`.
    other-Carries :
        (i j : ℕ) (clock : ℕ → Instant) (s : System S W D)
        → AllCounted s
        → i ≢ j
        → Carries api queue id n
            (s.places j)
            (step api database q queue id clock (s.places i) s.node).0.server
            (tally (s.places i) s.calls)
    other-Carries i j clock s c ne = elim (Bool-cases (holding (s.places j))) [
      | inr free ↦ Carries-free api queue id n (tally (s.places i) s.calls) (s.places j) _ free
      | inl held ↦ elim (Bool-cases (holding (s.places i))) [
        | inl mine ↦ absurd (ne (c.exclusive.unique i j mine held))
        | inr free ↦
            (let (keys, calls) =
                step_same (s.places i) clock s.node s.calls (c.exclusive.claimed j held) free in
              rw calls (
                Carries-same api queue id n s.calls (s.places j) s.node.server _ keys
                  (c.counted j).carried))
      ]
    ]

    Move-AllCounted :
        {s t : System S W D} → Move api database q queue id s t → AllCounted s → AllCounted t
    Move-AllCounted (stepped i clock s) c =
        let after =
          step-IsCounted api reliable database q queue id clock n limit small (s.places i) s.node
            s.calls (c.counted i) in
        let exclusive =
          Move-IsExclusive api reliable database q queue id (stepped i clock s) c.exclusive in
        record {
          exclusive = exclusive;
          counted = λ j. record {
            bound = after.bound;
            waiting = after.waiting;
            claimed = exclusive.claimed j;
            carried =
                placed
                  (λ at.
                    Carries api queue id n at
                      (step api database q queue id clock (s.places i) s.node).0.server
                      (tally (s.places i) s.calls))
                  s.places i _ j after.carried (other-Carries i j clock s c);
          };
        }
    Move-AllCounted (returned_to i f s e) c =
        let exclusive =
          Move-IsExclusive api reliable database q queue id (returned_to i f s e) c.exclusive in
        record {
          exclusive = exclusive;
          counted = λ j. record {
            bound = (c.counted j).bound;
            waiting = (c.counted j).waiting;
            claimed = exclusive.claimed j;
            carried =
                placed (λ at. Carries api queue id n at s.node.server s.calls) s.places i arriving j
                  tt (λ _. (c.counted j).carried);
          };
        }
    Move-AllCounted (elsewhere m s e e') c =
        let exclusive =
          Move-IsExclusive api reliable database q queue id (elsewhere m s e e') c.exclusive in
        record {
          exclusive = exclusive;
          counted = λ j. record {
            bound = (c.counted j).bound;
            waiting = λ x held. (c.counted j).waiting x (sym e ∙ held);
            claimed = exclusive.claimed j;
            carried =
                Carries-same api queue id n s.calls (s.places j) s.node.server m.server e'
                  (c.counted j).carried;
          };
        }

    Reach-AllCounted :
        {s t : System S W D} → Reach api database q queue id s t → AllCounted s → AllCounted t
    Reach-AllCounted here c = c
    Reach-AllCounted (next r m) c = Move-AllCounted m (Reach-AllCounted r c)

    -- However many workers meet the pending key of a job, and in whatever order their commands
    -- come, its handler is called at most `MaxAttempts + 1` times in all, whatever the calls
    -- return; and where the job is pending again, its counter is the number of calls, at most
    -- `MaxAttempts`. At first no worker holds the job, whose counter is 0 where it is pending. The
    -- server carries out its commands, and what else happens leaves the two keys of the job as they
    -- are.
    pub Reach-calls :
        {s t : System S W D}
        → ((i : ℕ) → holding (s.places i) ≡ false)
        → ((x : Hash)
            → view api s.node.server (key pending queue id) ≡ some x
            → x.retry_counter ≡ pos 0)
        → s.calls ≡ 0
        → Reach api database q queue id s t
        → (t.calls ≤ n + 1)
          × ((x : Hash)
              → view api t.node.server (key pending queue id) ≡ some x
              → (x.retry_counter ≡ pos t.calls) × (t.calls ≤ n))
    Reach-calls {s} {t} free fresh none_yet reach =
        let start : AllCounted s = record {
          exclusive = Reach-IsExclusive api reliable database q queue id free here;
          counted = λ i. record {
            bound = rw none_yet (ground arith);
            waiting = λ x held. (fresh x held ∙ ap pos (sym none_yet), rw none_yet (ground arith));
            claimed = λ held. absurd (ground (arith, held, free i));
            carried = Carries-free api queue id n s.calls (s.places i) s.node.server (free i);
          };
        } in
        let final = Reach-AllCounted reach start in
        ((final.counted 0).bound, (final.counted 0).waiting)
