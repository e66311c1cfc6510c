-- ===== src/Redis/Steps/System.antt =====
-- Workers that meet the same pending key at once, in any interleaving of their commands
-- (api/redis.go, `cursorScanRedisDb`; api/queue.go, `worker`).
use adele_queue.Base.{ℕ, suc, ◌≡◌, Bool, true, false, ◌==◌, if◌then◌else◌}
use adele_queue.Base.Text.{Text}
use adele_queue.Time.{Instant}
use adele_queue.Database.{Database}
use adele_queue.Queue.{Queue}
use adele_queue.Key.{pending, locked, key}
use adele_queue.Redis.{RedisApi, Node}
use adele_queue.Redis.View.{view}
use adele_queue.Redis.Scan.{Flow}
use adele_queue.Redis.Steps.{Place, arriving, marked, finished, step}

-- From the RENAME that claims the job to the command that lets go of it.
unfoldable pub holding : {W : Type 0} → Place W → Bool
holding arriving = false
holding (finished f) = false
holding at = true

abbrev pub update : {A : Type 0} → (ℕ → A) → ℕ → A → ℕ → A
update f i a j = if i == j then a else f j

-- The node, the place of each worker, and how often the handler of the job was called.
pub record System (S W D : Type 0) : Type 0 where
  pub node : Node S W D
  pub places : ℕ → Place W
  pub calls : ℕ

-- The calls of the handler after a step from here.
abbrev pub tally : {W : Type 0} → Place W → ℕ → ℕ
tally (marked job) calls = suc calls
tally at calls = calls

module _ {S W D : Type 0} (api : RedisApi S) (database : Database D) (q : Queue W)
    (queue id : Text) where
  -- A worker takes a step of its visit, or comes for another; or a command elsewhere leaves the
  -- pending and the locked key of the job as they are.
  pub data Move : System S W D → System S W D → Type 0 where
    stepped :
        (i : ℕ) (clock : ℕ → Instant) (s : System S W D)
        → Move s (record {
          node = (step api database q queue id clock (s.places i) s.node).0;
          places = update s.places i (step api database q queue id clock (s.places i) s.node).1;
          calls = tally (s.places i) s.calls;
        })
    returned_to :
        (i : ℕ) (f : Flow) (s : System S W D)
        → s.places i ≡ finished f
        → Move s (record s { places = update s.places i arriving })
    elsewhere :
        (n : Node S W D) (s : System S W D)
        → view api n.server (key pending queue id) ≡ view api s.node.server (key pending queue id)
        → view api n.server (key locked queue id) ≡ view api s.node.server (key locked queue id)
        → Move s (record s { node = n })

  pub data Reach (s : System S W D) : System S W D → Type 0 where
    here : Reach s s
    next : {t u : System S W D} → Reach s t → Move t u → Reach s u
