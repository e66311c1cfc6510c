-- ===== src/Provider.antt =====
-- provider.go, `ServiceProvider`: `Configure`, `Register` and `Boot`.
pub mod Lifecycle
use mathlib.Core.Option
use adele_queue.Base.{
  ℕ, Bool, true, false, List, [], ◌∷◌, Option, none, some, String, if◌then◌else◌,
}
use adele_queue.Base.Int.{ℤ, pos}
use adele_queue.Base.Text.{Text, codes}
use adele_queue.Config.{Configuration}
use adele_queue.Queue.{App, Queue, build_queue}
use adele_queue.Registry.{lookup}
use adele_queue.Pool.{Pool, listen}

-- A value of the map `config`, by the types that `Configure` asserts.
pub data Value : Type 0 where
  string_value : String → Value
  int_value : ℤ → Value
  bool_value : Bool → Value
  strings_value : List String → Value
  other_value : Value

pub record ServiceProvider (W : Type 0) : Type 0 where
  pub service : Option (Queue W)
  pub config : Configuration
  pub has_config : Bool

-- `Name`, `Priority` and `Service`.
abbrev pub provider_name : String
provider_name = "queue"

abbrev pub priority : ℤ
priority = pos 30

abbrev pub service : {W : Type 0} → ServiceProvider W → Option (Queue W)
service p = p.service

-- The provider that `init` registers, `&ServiceProvider{}`.
abbrev pub initial : {W : Type 0} → ServiceProvider W
initial = record {
  service = none;
  config = record {
    backend = "";
    worker_count = pos 0;
    max_attempts = pos 0;
    high_water_mark = pos 0;
    queue_channels = [];
    queue_channel_default = [];
    debug = false;
    redis_prefix = "";
    redis_scan_interval = pos 0;
    lock_timeout = pos 0;
    reaper_interval = pos 0;
  };
  has_config = false;
}

-- `config[key].(string)`, `.(int)` and so on; a key that is missing is the nil interface.
string_of : Option Value → String → String
string_of (some (string_value s)) d = s
string_of _ d = d

text_of : Option Value → Text → Text
text_of (some (string_value s)) d = codes s
text_of _ d = d

int_of : Option Value → ℤ → ℤ
int_of (some (int_value i)) d = i
int_of _ d = d

bool_of : Option Value → Bool → Bool
bool_of (some (bool_value b)) d = b
bool_of _ d = d

all_codes : List String → List Text
all_codes [] = []
all_codes (s ∷ ss) = codes s ∷ all_codes ss

strings_of : Option Value → List Text → List Text
unfolding all_codes
strings_of (some (strings_value ss)) d = all_codes ss
strings_of _ d = d

-- The fields of a configuration that the map sets.
unfoldable pub configured : List (String × Value) → Configuration → Configuration
unfolding string_of text_of int_of bool_of strings_of
configured m c = record {
  backend = string_of (lookup "backend" m) c.backend;
  worker_count = int_of (lookup "worker_count" m) c.worker_count;
  max_attempts = int_of (lookup "max_attempts" m) c.max_attempts;
  high_water_mark = int_of (lookup "high_water_mark" m) c.high_water_mark;
  queue_channels = strings_of (lookup "queue_channels" m) c.queue_channels;
  queue_channel_default = text_of (lookup "queue_channel_default" m) c.queue_channel_default;
  debug = bool_of (lookup "debug" m) c.debug;
  redis_prefix = string_of (lookup "redis_prefix" m) c.redis_prefix;
  redis_scan_interval = int_of (lookup "redis_scan_interval" m) c.redis_scan_interval;
  lock_timeout = int_of (lookup "lock_timeout" m) c.lock_timeout;
  reaper_interval = int_of (lookup "reaper_interval" m) c.reaper_interval;
}

unfoldable pub configure :
    {W : Type 0} → List (String × Value) → ServiceProvider W → ServiceProvider W
configure m p = record p { config = configured m p.config; has_config = true }

-- How `Register` ends: by nil, by an error, or by a panic of `buildQueue`.
pub data Registration (W : Type 0) : Type 0 where
  installed : ServiceProvider W → Registration W
  load_failed : ServiceProvider W → Registration W
  crashed : Registration W

install : {W : Type 0} → ServiceProvider W → Option (Queue W) → Registration W
install p none = crashed
install p (some q) = installed (record p { service = some q })

-- `loaded` is the outcome of `loadConfig`, which reads the file where nothing was configured.
unfoldable pub register :
    {W : Type 0} → ℕ → App → Option Configuration → ServiceProvider W → Registration W
unfolding install
register room a loaded p =
    if p.has_config
    then install p (build_queue room (some a) p.config)
    else elim loaded [ none ↦ load_failed p | some c ↦ install p (build_queue room (some a) c) ]

-- `Boot`: the workers and the reaper of the queue, where one was registered.
boot_service : {W : Type 0} → Option (Queue W) → Pool → Pool
boot_service none pool = pool
boot_service (some q) pool = listen q pool

unfoldable pub boot : {W : Type 0} → ServiceProvider W → Pool → Pool
unfolding boot_service
boot p pool = boot_service p.service pool
