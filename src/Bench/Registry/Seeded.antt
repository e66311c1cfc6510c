-- ===== src/Bench/Registry/Seeded.antt =====
-- internal/bench/benchjobs/registry.go, `seedAll`: its errors and its dispatches.
use adele_queue.Base.{
  ℕ, suc, ◌+◌, ◌≡◌, refl, arith, List, [], ◌∷◌, Option, none, some, String, length, map,
}
use adele_queue.Job.{Job}
use adele_queue.Bench.Registry.{Answer, sent, refused, seed_each}

-- A dispatcher that keeps, last first, what it was handed and what it answered.
abbrev pub logged :
    {W Q : Type 0}
    → (Job W → Q → Answer × Q)
    → Job W
    → Q × List (Job W × Answer)
    → Answer × (Q × List (Job W × Answer))
logged dispatch job (q, log) = let (a, q') = dispatch job q in (a, (q', (job, a) ∷ log))

-- The jobs that the constructors built, in front of which stand those before, last first.
abbrev pub built_onto : {W : Type 0} → List (Job W) → List (String × Option (Job W)) → List (Job W)
built_onto before [] = before
built_onto before ((name, none) ∷ entries) = built_onto before entries
built_onto before ((name, some job) ∷ entries) = built_onto (job ∷ before) entries

abbrev pub accepted : {W : Type 0} → List (Job W × Answer) → ℕ
accepted [] = 0
accepted ((job, sent id) ∷ log) = suc (accepted log)
accepted ((job, refused e) ∷ log) = accepted log

abbrev first : {A B : Type 0} → A × B → A
first p = p.0

module _ {W Q : Type 0} (dispatch : Job W → Q → Answer × Q) where
  -- `seedAll` hands each job that was built to the dispatcher, in the order of the entries,
  -- whatever went wrong before, and it ends with exactly one error for each entry that was not
  -- accepted.
  pub seed_each_lem :
      (entries : List (String × Option (Job W))) (q : Q) (log : List (Job W × Answer))
      → (map first (seed_each (logged dispatch) entries (q, log)).1.1
          ≡ built_onto (map first log) entries)
        × (length (seed_each (logged dispatch) entries (q, log)).0
              + accepted (seed_each (logged dispatch) entries (q, log)).1.1
            ≡ length entries + accepted log)
  unfolding seed_each
  seed_each_lem [] q log = (refl, refl)
  seed_each_lem ((name, none) ∷ entries) q log =
      let (jobs, errors) = seed_each_lem entries q log in (jobs, omega (arith, errors))
  seed_each_lem ((name, some job) ∷ entries) q log =
      let (jobs, errors) =
        seed_each_lem entries (dispatch job q).1 ((job, (dispatch job q).0) ∷ log) in
      (jobs, ground (arith, errors))
