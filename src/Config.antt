-- ===== src/Config.antt =====
-- api/types.go, `Configuration`, and api/queue.go, `setConfigDefaults`.
pub mod Defaults
use adele_queue.Base.{Bool, List, String, [], not, ◌&&◌, str_eq, if◌then◌else◌}
use adele_queue.Base.Int.{ℤ, pos, half, eq_ℤ, leb_ℤ, ltb_ℤ}
use adele_queue.Base.Text.{Text, codes, text_eq}

pub record Configuration : Type 0 where
  pub backend : String
  pub worker_count : ℤ
  pub max_attempts : ℤ
  pub high_water_mark : ℤ
  pub queue_channels : List Text
  pub queue_channel_default : Text
  pub debug : Bool
  pub redis_prefix : String
  pub redis_scan_interval : ℤ
  pub lock_timeout : ℤ
  pub reaper_interval : ℤ

-- The steps of `setConfigDefaults`, a function for each kind.
pub default_backend : String → String
default_backend s =
    if str_eq s ""
    then "memory"
    else if not (str_eq s "memory") && not (str_eq s "redis")
    then "memory"
    else s

-- `if x == 0 { x = d }`
pub default_zero : ℤ → ℤ → ℤ
default_zero d x = if eq_ℤ x (pos 0) then d else x

-- `if x <= 0 { x = d }`
pub default_positive : ℤ → ℤ → ℤ
default_positive d x = if leb_ℤ x (pos 0) then d else x

pub default_channel : Text → Text
default_channel s = if text_eq s [] then codes "job" else s

-- The reaper's interval, once both are positive.
pub clamp_reaper : ℤ → ℤ → ℤ
clamp_reaper lock interval =
    if leb_ℤ lock interval
    then (if ltb_ℤ (half lock) (pos 1) then pos 1 else half lock)
    else interval

unfoldable pub set_config_defaults : Configuration → Configuration
unfolding default_backend default_zero default_positive default_channel clamp_reaper
set_config_defaults c =
    let lock = default_positive (pos 300) c.lock_timeout in
    record c {
      backend = default_backend c.backend;
      worker_count = default_zero (pos 1) c.worker_count;
      max_attempts = default_zero (pos 3) c.max_attempts;
      high_water_mark = default_zero (pos 10000) c.high_water_mark;
      redis_scan_interval = default_zero (pos 1) c.redis_scan_interval;
      queue_channel_default = default_channel c.queue_channel_default;
      lock_timeout = lock;
      reaper_interval = clamp_reaper lock (default_positive (pos 30) c.reaper_interval);
    }
