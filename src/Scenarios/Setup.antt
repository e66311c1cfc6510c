-- ===== src/Scenarios/Setup.antt =====
-- The theorems on configurations, the queue that is built, the registry and the keys, at samples.
use adele_queue.Base.{
  ◌≡◌, ◌≢◌, ◌↔◌, ◌⊎◌, refl, arith, ℕ, false, none, some, String, str_eq, if◌then◌else◌,
}
use adele_queue.Base.Int.{pos, ◌<ℤ◌}
use adele_queue.Base.Text.{codes}
use adele_queue.Config.{set_config_defaults}
use adele_queue.Queue.{Queue, build_queue}
use adele_queue.Queue.Build.{IsReady, build_queue-IsReady}
use adele_queue.Registry.{lookup}
use adele_queue.Registry.Laws.{
  IsRegistry, Request, plain_request, register, entry_of, register-IsRegistry, register_lem,
}
use adele_queue.Registry.{register_handler}
use adele_queue.Key.{pending, key, read_key, redis_keyspace_formater}
use adele_queue.Key.Split.{read_key-key}
use adele_queue.Scenarios.World.{succeeds, configuration, app, queue}
use adele_queue.Scenarios.Server.{lower}

build_queue-IsReady_example :
    ((q : Queue ℕ) → build_queue 100000 (some app) configuration ≡ some q → IsReady q)
    × ((build_queue {W = ℕ} 100000 (some app) configuration ≡ none)
        ↔ (configuration.high_water_mark <ℤ pos 0)
          ⊎ (pos 100000 <ℤ (set_config_defaults configuration).high_water_mark))
build_queue-IsReady_example = build_queue-IsReady 100000 (some app) configuration

abbrev mail : String
mail = "mail"

abbrev request : Request ℕ
request = plain_request (some succeeds)

register-IsRegistry_example : IsRegistry (register queue mail request).0.handlers
register-IsRegistry_example = register-IsRegistry queue mail request tt

register_lem_example :
    (((register queue mail request).1 ≡ none)
      ↔ ((mail ≢ "") × (false ≡ false) × (lookup mail queue.handlers ≡ none)))
    × ((register queue mail request).1 ≡ none
        → (n : String)
        → lookup n (register queue mail request).0.handlers
          ≡ (if str_eq mail n then some (entry_of request) else lookup n queue.handlers))
    × ((register queue mail request).1 ≢ none → (register queue mail request).0 ≡ queue)
register_lem_example = register_lem queue mail request

registers : (register queue mail request).1 ≡ none
unfolding register_handler
registers = refl

read_key-key_example :
    read_key (key pending (codes "job") (codes "7")) ≡ some (codes "job", codes "7")
read_key-key_example = read_key-key pending (codes "job") (codes "7") (ground arith) (ground arith)

formatted : redis_keyspace_formater lower (codes "Mail: Bulk,x") ≡ codes "mail-bulkx"
unfolding redis_keyspace_formater adele_queue.Key.to_lower
formatted = refl
