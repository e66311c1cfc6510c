-- ===== src/Facade.antt =====
-- queue.go: what the package of the repository's root forwards to api/.
use adele_queue.Base.{ℕ, Option}
use adele_queue.Base.Text.{Text}
use adele_queue.Config.{Configuration}
use adele_queue.Queue.{App}
use adele_queue.Load.{FileSystem, Created, new, new_with_config}

-- `New`, over the disk, the YAML decoder and the embedded template of api/.
abbrev pub queue_new :
    {F W : Type 0}
    → FileSystem F
    → (Text → Option Configuration)
    → Option Text
    → ℕ
    → Option App
    → F
    → F × Created W
queue_new files decode template room a f = new files decode template room a f

-- `NewWithConfig`
abbrev pub queue_new_with_config : {W : Type 0} → ℕ → Option App → Configuration → Created W
queue_new_with_config room a config = new_with_config room a config
