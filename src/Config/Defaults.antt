-- ===== src/Config/Defaults.antt =====
-- What `setConfigDefaults` of api/queue.go guarantees of a configuration.
use adele_queue.Base.{◌≡◌, ◌≢◌, ◌⊎◌, arith, String, [], eq_iff, inl, inr}
use adele_queue.Base.Int.{ℤ, pos, ◌<ℤ◌}
use adele_queue.Base.Text.{Text, text_eq}
use adele_queue.Config.{
  Configuration, default_backend, default_zero, default_positive, default_channel, clamp_reaper,
  set_config_defaults,
}

-- What later code relies on after the defaults.
pub record IsComplete (c : Configuration) : Type 0 where
  pub backend_known : (c.backend ≡ "memory") ⊎ (c.backend ≡ "redis")
  pub workers : c.worker_count ≢ pos 0
  pub attempts : c.max_attempts ≢ pos 0
  pub high_water : c.high_water_mark ≢ pos 0
  pub scan_interval : c.redis_scan_interval ≢ pos 0
  pub default_channel : c.queue_channel_default ≢ []
  pub lock : pos 0 <ℤ c.lock_timeout
  pub reaper : pos 0 <ℤ c.reaper_interval
  pub reaper_in_time :
      (c.reaper_interval <ℤ c.lock_timeout) ⊎ (c.lock_timeout ≡ pos 1) × (c.reaper_interval ≡ pos 1)

-- The configuration after the defaults is complete, whatever it was before.
pub set_config_defaults-IsComplete : (c : Configuration) → IsComplete (set_config_defaults c)
unfolding set_config_defaults text_eq
set_config_defaults-IsComplete c = record {
  backend_known =
      ground (arith, eq_iff c.backend "memory", eq_iff c.backend "redis", eq_iff c.backend "");
  workers = ground arith;
  attempts = ground arith;
  high_water = ground arith;
  scan_interval = ground arith;
  default_channel = ground arith;
  lock = ground arith;
  reaper = ground arith;
  reaper_in_time = ground arith;
}

default_backend_known : (s : String) → (s ≡ "memory") ⊎ (s ≡ "redis") → default_backend s ≡ s
unfolding default_backend
default_backend_known s h = elim h [ inl e ↦ rw e | inr e ↦ rw e ]

default_zero_ne : (d x : ℤ) → x ≢ pos 0 → default_zero d x ≡ x
unfolding default_zero
default_zero_ne d x h = ground arith

default_positive_pos : (d x : ℤ) → pos 0 <ℤ x → default_positive d x ≡ x
unfolding default_positive
default_positive_pos d x h = ground arith

default_channel_ne : (s : Text) → s ≢ [] → default_channel s ≡ s
unfolding default_channel text_eq
default_channel_ne s h = ground arith

clamp_reaper_in_time :
    (lock interval : ℤ)
    → (interval <ℤ lock) ⊎ (lock ≡ pos 1) × (interval ≡ pos 1)
    → clamp_reaper lock interval ≡ interval
unfolding clamp_reaper
clamp_reaper_in_time lock interval h = ground arith

-- A complete configuration is left as it is.
set_config_defaults_of_IsComplete : (c : Configuration) → IsComplete c → set_config_defaults c ≡ c
unfolding set_config_defaults
set_config_defaults_of_IsComplete c h = rw (
  default_backend_known c.backend h.backend_known,
  default_zero_ne (pos 1) c.worker_count h.workers,
  default_zero_ne (pos 3) c.max_attempts h.attempts,
  default_zero_ne (pos 10000) c.high_water_mark h.high_water,
  default_zero_ne (pos 1) c.redis_scan_interval h.scan_interval,
  default_channel_ne c.queue_channel_default h.default_channel,
  default_positive_pos (pos 300) c.lock_timeout h.lock,
  default_positive_pos (pos 30) c.reaper_interval h.reaper,
  clamp_reaper_in_time c.lock_timeout c.reaper_interval h.reaper_in_time,
)

-- Applying the defaults twice is applying them once.
pub set_config_defaults_idem :
    (c : Configuration) → set_config_defaults (set_config_defaults c) ≡ set_config_defaults c
set_config_defaults_idem c =
    set_config_defaults_of_IsComplete (set_config_defaults c) (set_config_defaults-IsComplete c)
