-- ===== src/Scenarios/World.antt =====
-- A sample process: a configuration, a queue of the memory backend, jobs and a database.
use adele_queue.Base.{
  ℕ, ◌+◌, ◌&&◌, ◌≡◌, refl, true, false, List, [], ◌∷◌, ◌++◌, Option, none, some, inr, if◌then◌else◌,
}
use adele_queue.Base.Int.{pos}
use adele_queue.Base.Text.{Text, codes}
use adele_queue.Handler.{Handler, succeeded, failed}
use adele_queue.Job.{Job, Row, zero_job}
use adele_queue.Config.{Configuration}
use adele_queue.Queue.{App, Queue}
use adele_queue.Database.{Database, Table, jobs, failed_jobs, same_table, is_nil}
use adele_queue.Memory.{Mem}

-- The world counts the calls of the handlers.
abbrev pub succeeds : Handler ℕ
succeeds payload calls = (succeeded, calls + 1)

abbrev pub fails : Handler ℕ
fails payload calls = (failed (codes "no route"), calls + 1)

abbrev pub channel : Text
channel = codes "job"

abbrev pub configuration : Configuration
configuration = record {
  backend = "kafka";
  worker_count = pos 0;
  max_attempts = pos 0;
  high_water_mark = pos 0;
  queue_channels = [];
  queue_channel_default = [];
  debug = false;
  redis_prefix = "";
  redis_scan_interval = pos 0;
  lock_timeout = pos 20;
  reaper_interval = pos 30;
}

abbrev pub app : App
app = record { root_path = codes "/srv/app"; has_log = true; cache = none; has_db = true }

abbrev pub queue : Queue ℕ
queue = record {
  backend = "memory";
  cache = none;
  debug = false;
  failed_jobs = [];
  redis = record { pool = false; prefix = ""; scan_interval = pos 1 };
  worker_count = pos 2;
  max_attempts = pos 1;
  high_water_mark = pos 10;
  framework_log = false;
  queue_channels = channel ∷ [];
  queue_channel_default = channel;
  db = true;
  lock_timeout = pos 300;
  reaper_interval = pos 30;
  handlers = [];
  pending_count = pos 0;
  cancelled = false;
}

abbrev pub job : Job ℕ
job = record zero_job {
  id = codes "7";
  handler = some fails;
  name = "mail";
  payload = some (codes "hi");
  retry = true;
}

abbrev pub Tables : Type 0
Tables = List Row × List Row

abbrev pub select_rows : Table → Tables → List Row
select_rows jobs d = d.0
select_rows failed_jobs d = d.1

abbrev pub insert_row : Table → Row → Tables → Tables × Option Text
insert_row jobs r d = ((d.0 ++ r ∷ [], d.1), none)
insert_row failed_jobs r d = ((d.0, d.1 ++ r ∷ []), none)

pub select_rows-insert_row :
    (t u : Table) (r : Row) (d : Tables)
    → select_rows u (insert_row t r d).0 ≡ (
        if same_table t u && is_nil (insert_row t r d).1
        then select_rows u d ++ r ∷ []
        else select_rows u d)
select_rows-insert_row jobs jobs r d = refl
select_rows-insert_row jobs failed_jobs r d = refl
select_rows-insert_row failed_jobs jobs r d = refl
select_rows-insert_row failed_jobs failed_jobs r d = refl

abbrev pub database : Database Tables
database = record {
  rows = select_rows;
  insert = insert_row;
  find_all = λ t d. some (select_rows t d);
  rows-insert = select_rows-insert_row;
  find_all_rows = λ t d. inr refl;
}

abbrev pub memory : Mem ℕ Tables
memory = record {
  queue = queue;
  sleepers = [];
  senders = [];
  running = [];
  closed = false;
  crashed = false;
  world = 0;
  db = ([], []);
}
