-- ===== src/Queue.antt =====
-- api/types.go, `Queue`, and api/queue.go, `buildQueue`: the process's own state of a queue.
pub mod Build
use adele_queue.Base.{
  ℕ, ◌||◌, Bool, true, false, List, [], ◌∷◌, ◌++◌, Option, none, some, String, any, str_eq,
  if◌then◌else◌,
}
use adele_queue.Base.Int.{ℤ, pos, ltb_ℤ}
use adele_queue.Base.Text.{Text, text_eq}
use adele_queue.Handler.{RegisteredHandler}
use adele_queue.Config.{Configuration, set_config_defaults}

-- What `a.Cache` holds: a redis cache with its prefix, or another implementation.
pub data Cache : Type 0 where
  redis_cache : String → Cache
  other_cache : Cache

-- The parts of `adele.Adele` that the queue reads.
pub record App : Type 0 where
  pub root_path : Text
  pub has_log : Bool
  pub cache : Option Cache
  pub has_db : Bool

pub record Redis : Type 0 where
  pub pool : Bool  -- whether a connection pool is set
  pub prefix : String
  pub scan_interval : ℤ

-- `W` is the world that the handlers act on. The channel `Jobs` and the detached goroutines that
-- send to it are in Memory; `Cache`, the database's session and the loggers are whether they are
-- wired.
pub record Queue (W : Type 0) : Type 0 where
  pub backend : String
  pub cache : Option Cache
  pub debug : Bool
  pub failed_jobs : List Text
  pub redis : Redis
  pub worker_count : ℤ
  pub max_attempts : ℤ
  pub high_water_mark : ℤ
  pub framework_log : Bool
  pub queue_channels : List Text
  pub queue_channel_default : Text
  pub db : Bool
  pub lock_timeout : ℤ
  pub reaper_interval : ℤ
  pub handlers : List (String × RegisteredHandler W)
  pub pending_count : ℤ
  pub cancelled : Bool  -- whether `lifecycleCtx` is cancelled

-- `a != nil && a.Log != nil`, and the like.
app_log : Option App → Bool
app_log none = false
app_log (some a) = a.has_log

app_cache : Option App → Option Cache
app_cache none = none
app_cache (some a) = a.cache

app_db : Option App → Bool
app_db none = false
app_db (some a) = a.has_db

-- The redis pool and the prefix, where the redis backend is selected.
resolve_redis : String → Option Cache → Redis → Redis
resolve_redis backend (some (redis_cache prefix)) r =
    if str_eq backend "redis"
    then record r { pool = true; prefix = if str_eq r.prefix "" then prefix else r.prefix }
    else r
resolve_redis backend (some other_cache) r = r
resolve_redis backend none r = r

-- `slices.Contains`
unfoldable pub contains : List Text → Text → Bool
contains channels c = any (λ d. text_eq d c) channels

-- `queue_channels` with the default channel appended where it is missing.
with_default : List Text → Text → List Text
with_default channels c = if contains channels c then channels else channels ++ c ∷ []

-- The `&Queue{...}` of a configuration that has its defaults, and what is wired into it.
unfoldable pub assemble : {W : Type 0} → Option App → Configuration → Queue W
unfolding app_log app_cache app_db resolve_redis with_default
assemble a c = record {
  backend = c.backend;
  cache = app_cache a;
  debug = c.debug;
  failed_jobs = [];
  redis =
      resolve_redis c.backend (app_cache a)
        (record { pool = false; prefix = c.redis_prefix; scan_interval = c.redis_scan_interval });
  worker_count = c.worker_count;
  max_attempts = c.max_attempts;
  high_water_mark = c.high_water_mark;
  framework_log = app_log a;
  queue_channels = with_default c.queue_channels c.queue_channel_default;
  queue_channel_default = c.queue_channel_default;
  db = app_db a;
  lock_timeout = c.lock_timeout;
  reaper_interval = c.reaper_interval;
  handlers = [];
  pending_count = pos 0;
  cancelled = false;
}

-- `make([]string, 0, n)` panics at a negative capacity and at one above what the runtime can make,
-- `room`: `none`.
unfoldable pub build_queue : {W : Type 0} → ℕ → Option App → Configuration → Option (Queue W)
build_queue room a cfg =
    let c = set_config_defaults cfg in
    if ltb_ℤ c.high_water_mark (pos 0) || ltb_ℤ (pos room) c.high_water_mark
    then none
    else some (assemble a c)
