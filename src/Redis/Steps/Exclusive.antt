-- ===== src/Redis/Steps/Exclusive.antt =====
-- Workers that meet the same pending key at once, in any interleaving of their commands
-- (api/redis.go).
use adele_queue.Base.{
  ℕ, ◌≡◌, ◌≢◌, refl, sym, ◌∙◌, arith, true, false, Option, none, Option-cases, Bool-cases, ◌+◌, inl,
  inr, ◌==◌, ◌⊎◌,
}
use adele_queue.Base.Text.{Text}
use adele_queue.Time.{Instant, format}
use adele_queue.Job.{Job, Hash, add_flat}
use adele_queue.Database.{Database}
use adele_queue.Queue.{Queue}
use adele_queue.Key.{KeyState, pending, complete, key}
use adele_queue.Key
use adele_queue.Redis.{RedisApi, IsReliable, Node, all_fields, locked_at_field, status_field}
use adele_queue.Redis.View.{view}
use adele_queue.Redis.Handle.{done, errored, unhandled, completed_job, failed_job, retriable}
use adele_queue.Redis.Steps.Pending.{pending-hset_locked, claim_missing, claim_found}
use adele_queue.Redis.Steps.System.{
  holding, update, tally, System, Move, stepped, returned_to, elsewhere, Reach, here, next,
}
use adele_queue.Redis.Steps.{
  Place, arriving, renamed, stamped, loaded, marked, called, moving, finished, store, pass,
  conclude, move, step,
}

module _ {S W D : Type 0} (api : RedisApi S) (reliable : IsReliable api) (database : Database D)
    (q : Queue W) (queue id : Text) (clock : ℕ → Instant) where
  -- What the job's pending key holds.
  abbrev there : Node S W D → Option Hash
  there n = view api n.server (key pending queue id)

  there-store :
      (new : KeyState) (job : Job W) (n : Node S W D)
      → there (store api database q queue id clock new job n).0 ≡ there n
  unfolding store
  there-store new job n =
      pending-hset_locked api reliable queue id n.server id (all_fields (add_flat job))

  -- A worker that holds the job, or comes to hold it, leaves nothing under the pending key.
  step-holding :
      (at : Place W) (n : Node S W D)
      → (holding at ≡ true → there n ≡ none)
      → holding (step api database q queue id clock at n).1 ≡ true
      → there (step api database q queue id clock at n).0 ≡ none
  unfolding holding step store pass conclude move
  step-holding arriving n h e = elim (Option-cases (there n)) [
    | inl gone ↦ ground (arith, (claim_missing api reliable queue id n.server gone).0, e)
    | inr (x, held) ↦ (claim_found api reliable queue id n.server x held).1
  ]
  step-holding renamed n h e =
      pending-hset_locked api reliable queue id n.server id (locked_at_field (format (clock 0)))
      ∙ h refl
  step-holding stamped n h e = ground (arith, h refl)
  step-holding (loaded job) n h e = ground (
    arith,
    h refl,
    e,
    pending-hset_locked api reliable queue id n.server job.id (status_field "processing"),
  )
  step-holding (marked job) n h e = h refl
  step-holding (called done job) n h e =
      there-store complete (completed_job (λ i. clock (i + 2)) job) n ∙ h refl
  step-holding (called (errored x) job) n h e = elim (Bool-cases (retriable q job)) [
    | inl again ↦ absurd (ground (arith, e, again))
    | inr final ↦
        rw final (there-store Key.failed (failed_job (λ i. clock (i + 2)) x job) n ∙ h refl)
  ]
  step-holding (called (unhandled x) job) n h e =
      there-store Key.failed (failed_job (λ i. clock (i + 2)) x (record job { retry = false })) n
      ∙ h refl
  step-holding (moving new job) n h e = absurd (ground (arith, e))
  step-holding (finished f) n h e = absurd (ground (arith, e))

  -- No worker comes to hold a job whose pending key is gone, and none that does not hold it puts it
  -- back.
  step_gone :
      (at : Place W) (n : Node S W D)
      → there n ≡ none
      → holding at ≡ false
      → (there (step api database q queue id clock at n).0 ≡ none)
        × (holding (step api database q queue id clock at n).1 ≡ false)
  unfolding holding step
  step_gone arriving n gone e =
      let (failed, same) = claim_missing api reliable queue id n.server gone in
      ground (arith, failed, same (key pending queue id))
  step_gone (finished f) n gone e = (gone, refl)
  step_gone renamed n gone e = absurd (ground (arith, e))
  step_gone stamped n gone e = absurd (ground (arith, e))
  step_gone (loaded job) n gone e = absurd (ground (arith, e))
  step_gone (marked job) n gone e = absurd (ground (arith, e))
  step_gone (called v job) n gone e = absurd (ground (arith, e))
  step_gone (moving new job) n gone e = absurd (ground (arith, e))

-- At most one worker holds the job, and where one does, its pending key is gone.
pub record IsExclusive {S W D : Type 0} (api : RedisApi S) (queue id : Text) (s : System S W D)
    : Type 0 where
  pub unique : (i j : ℕ) → holding (s.places i) ≡ true → holding (s.places j) ≡ true → i ≡ j
  pub claimed :
      (i : ℕ) → holding (s.places i) ≡ true → view api s.node.server (key pending queue id) ≡ none

-- Who holds the job after worker `i` goes to `at`.
held_by :
    {W : Type 0} (f : ℕ → Place W) (i : ℕ) (at : Place W) (j : ℕ)
    → holding (update f i at j) ≡ true
    → ((i ≡ j) × (holding at ≡ true)) ⊎ ((i ≢ j) × (holding (f j) ≡ true))
held_by f i at j e = elim (Bool-cases (i == j)) [
  | inl same ↦ inl (ground (arith, same), ground (arith, e, same))
  | inr other ↦ inr (ground (arith, other), ground (arith, e, other))
]

module _ {S W D : Type 0} (api : RedisApi S) (reliable : IsReliable api) (database : Database D)
    (q : Queue W) (queue id : Text) where
  -- The other workers while one that holds the job takes its step: none of them holds it.
  left_alone :
      (i : ℕ) (clock : ℕ → Instant) (s : System S W D) (j : ℕ)
      → IsExclusive api queue id s
      → i ≢ j
      → holding (s.places j) ≡ true
      → (there api reliable database q queue id clock
            (step api database q queue id clock (s.places i) s.node).0
          ≡ none)
        × (holding (step api database q queue id clock (s.places i) s.node).1 ≡ false)
  left_alone i clock s j x ne held = elim (Bool-cases (holding (s.places i))) [
    | inl mine ↦ absurd (ne (x.unique i j mine held))
    | inr free ↦
        step_gone api reliable database q queue id clock (s.places i) s.node (x.claimed j held) free
  ]

  stepped-IsExclusive :
      (i : ℕ) (clock : ℕ → Instant) (s : System S W D)
      → IsExclusive api queue id s
      → IsExclusive api queue id (record {
        node = (step api database q queue id clock (s.places i) s.node).0;
        places = update s.places i (step api database q queue id clock (s.places i) s.node).1;
        calls = tally (s.places i) s.calls;
      })
  stepped-IsExclusive i clock s x =
      let at = (step api database q queue id clock (s.places i) s.node).1 in
      record {
        unique = λ j k hj hk. elim (held_by s.places i at j hj) [
          | inl (ij, mine) ↦ elim (held_by s.places i at k hk) [
            | inl (ik, _) ↦ sym ij ∙ ik
            | inr (ne, held) ↦ absurd (ground (arith, mine, (left_alone i clock s k x ne held).1))
          ]
          | inr (ne, held) ↦ elim (held_by s.places i at k hk) [
            | inl (_, mine) ↦ absurd (ground (arith, mine, (left_alone i clock s j x ne held).1))
            | inr (_, held') ↦ x.unique j k held held'
          ]
        ];
        claimed = λ j hj. elim (held_by s.places i at j hj) [
          | inl (_, mine) ↦
              step-holding api reliable database q queue id clock (s.places i) s.node (x.claimed i)
                mine
          | inr (ne, held) ↦ (left_alone i clock s j x ne held).0
        ];
      }

  returned-IsExclusive :
      (i : ℕ) (s : System S W D)
      → IsExclusive api queue id s
      → IsExclusive api queue id (record s { places = update s.places i arriving })
  unfolding holding
  returned-IsExclusive i s x = record {
    unique = λ j k hj hk. x.unique j k (still j hj) (still k hk);
    claimed = λ j hj. x.claimed j (still j hj);
  }
    where
      still : (j : ℕ) → holding (update s.places i arriving j) ≡ true → holding (s.places j) ≡ true
      still j hj = ground (arith, held_by s.places i arriving j hj)

  pub Move-IsExclusive :
      {s t : System S W D}
      → Move api database q queue id s t
      → IsExclusive api queue id s
      → IsExclusive api queue id t
  Move-IsExclusive (stepped i clock s) x = stepped-IsExclusive i clock s x
  Move-IsExclusive (returned_to i f s e) x = returned-IsExclusive i s x
  Move-IsExclusive (elsewhere n s e _) x = record {
    unique = x.unique;
    claimed = λ i held. e ∙ x.claimed i held;
  }

  -- Workers that take up and leave the key of one job, command by command and in any order, never
  -- hold it at the same time: where no worker holds the job at first, at most one does in any state
  -- that they reach, from the RENAME that claims it to the command that stores its outcome, the
  -- call of the handler between them; and while it is held its pending key is gone. The server
  -- carries out its commands, and what else happens leaves the two keys as they are.
  pub Reach-IsExclusive :
      {s t : System S W D}
      → ((i : ℕ) → holding (s.places i) ≡ false)
      → Reach api database q queue id s t
      → IsExclusive api queue id t
  Reach-IsExclusive free here = record {
    unique = λ i j hi hj. absurd (ground (arith, hi, free i));
    claimed = λ i hi. absurd (ground (arith, hi, free i));
  }
  Reach-IsExclusive free (next r m) = Move-IsExclusive m (Reach-IsExclusive free r)
