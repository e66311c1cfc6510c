-- ===== src/Database.antt =====
-- The database session `q.DB` (github.com/upper/db), an interface: the queue inserts rows into the
-- tables `jobs` and `failed_jobs` and reads them back in the order of their ids.
use adele_queue.Base.{
  Bool, true, false, ◌&&◌, List, [], ◌∷◌, ◌++◌, Option, none, some, ◌≡◌, ◌⊎◌, if◌then◌else◌,
}
use adele_queue.Base.Text.{Text}
use adele_queue.Job.{Row}

pub data Table : Type 0 where
  jobs failed_jobs : Table

abbrev pub same_table : Table → Table → Bool
same_table jobs jobs = true
same_table failed_jobs failed_jobs = true
same_table jobs failed_jobs = false
same_table failed_jobs jobs = false

abbrev pub is_nil {ℓ} : {A : Type ℓ} → Option A → Bool
is_nil none = true
is_nil (some a) = false

-- A database in the states `D`. An insertion that returns no error appends the row to its table and
-- touches no other row; one that returns an error changes nothing.
pub record Database (D : Type 0) : Type 0 where
  pub rows : Table → D → List Row
  pub insert : Table → Row → D → D × Option Text
  pub find_all : Table → D → Option (List Row)  -- `none` is an error
  pub rows-insert :
      (t u : Table) (r : Row) (d : D)
      → rows u (insert t r d).0
        ≡ (if same_table t u && is_nil (insert t r d).1 then rows u d ++ r ∷ [] else rows u d)
  pub find_all_rows : (t : Table) (d : D) → (find_all t d ≡ none) ⊎ (find_all t d ≡ some (rows t d))
