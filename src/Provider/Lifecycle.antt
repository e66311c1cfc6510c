-- ===== src/Provider/Lifecycle.antt =====
-- What `Configure` and `Register` of provider.go guarantee together.
use adele_queue.Base.{◌≡◌, ap, arith, Bool, true, List, Option, String}
use adele_queue.Base.Int.{ℤ}
use adele_queue.Base.Text.{Text}
use adele_queue.Registry.{lookup}
use adele_queue.Config.{Configuration}
use adele_queue.Queue.{Queue}
use adele_queue.Provider.{
  Value, ServiceProvider, string_of, text_of, int_of, bool_of, strings_of, configured, configure,
}

string_of_idem : (v : Option Value) (d : String) → string_of v (string_of v d) ≡ string_of v d
unfolding string_of
string_of_idem v d = ground arith

text_of_idem : (v : Option Value) (d : Text) → text_of v (text_of v d) ≡ text_of v d
unfolding text_of
text_of_idem v d = ground arith

int_of_idem : (v : Option Value) (d : ℤ) → int_of v (int_of v d) ≡ int_of v d
unfolding int_of
int_of_idem v d = ground arith

bool_of_idem : (v : Option Value) (d : Bool) → bool_of v (bool_of v d) ≡ bool_of v d
unfolding bool_of
bool_of_idem v d = ground arith

strings_of_idem :
    (v : Option Value) (d : List Text) → strings_of v (strings_of v d) ≡ strings_of v d
unfolding strings_of
strings_of_idem v d = ground arith

configured_idem :
    (m : List (String × Value)) (c : Configuration) → configured m (configured m c) ≡ configured m c
unfolding configured
configured_idem m c = rw (
  string_of_idem (lookup "backend" m) c.backend,
  int_of_idem (lookup "worker_count" m) c.worker_count,
  int_of_idem (lookup "max_attempts" m) c.max_attempts,
  int_of_idem (lookup "high_water_mark" m) c.high_water_mark,
  strings_of_idem (lookup "queue_channels" m) c.queue_channels,
  text_of_idem (lookup "queue_channel_default" m) c.queue_channel_default,
  bool_of_idem (lookup "debug" m) c.debug,
  string_of_idem (lookup "redis_prefix" m) c.redis_prefix,
  int_of_idem (lookup "redis_scan_interval" m) c.redis_scan_interval,
  int_of_idem (lookup "lock_timeout" m) c.lock_timeout,
  int_of_idem (lookup "reaper_interval" m) c.reaper_interval,
)

-- Configuring a provider twice with the same map is configuring it once.
pub configure_idem :
    {W : Type 0} (m : List (String × Value)) (p : ServiceProvider W)
    → configure m (configure m p) ≡ configure m p
unfolding configure
configure_idem m p =
    ap (λ (c : Configuration). record p { config = c; has_config = true })
      (configured_idem m p.config)
