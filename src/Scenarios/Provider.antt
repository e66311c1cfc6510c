-- ===== src/Scenarios/Provider.antt =====
-- The theorems on the service provider at a sample configuration map.
use adele_queue.Base.{ℕ, false, List, [], ◌∷◌, none, String}
use adele_queue.Base.Int.{pos}
use adele_queue.Queue.{Queue}
use adele_queue.Provider.{Value, string_value, int_value, ServiceProvider}
use adele_queue.Scenarios.World.{configuration}

abbrev settings : List (String × Value)
settings =
    ("backend", string_value "redis")
    ∷ ("worker_count", int_value (pos 4))
    ∷ ("max_attempts", string_value "many")
    ∷ []

abbrev provider : ServiceProvider ℕ
provider = record { service = none; config = configuration; has_config = false }
