-- ===== src/Scenarios/Load.antt =====
-- The theorems on the loading of the configuration file at a sample disk, which holds one file at
-- most.
use adele_queue.Base.{ℕ, ◌≡◌, inr, refl, true, Option, none, some, [], ◌++◌}
use adele_queue.Base.Text.{Text, codes}
use adele_queue.Config.{Configuration, set_config_defaults}
use adele_queue.Load.{
  Stat, present, missing, FileSystem, loaded, config_file, load_config, created, new_with_config,
  new,
}
use adele_queue.Load.Again.{new_again}
use adele_queue.Queue.{Queue, assemble, build_queue}
use adele_queue.Queue.Build.{IsReady}
use adele_queue.Scenarios.World.{app, configuration}

abbrev stat_of : Option Text → Stat
stat_of none = missing
stat_of (some text) = present

abbrev disk : FileSystem (Option Text)
disk = record {
  dir = λ path. [];
  stat = λ path f. stat_of f;
  mkdir_all = λ path f. (f, true);
  write_file = λ path text f. (some text, true);
  read_file = λ path f. f;
  stat-write_file = λ path text f written. refl;
  read_file-write_file = λ path text f written. inr refl;
}

abbrev decode : Text → Option Configuration
decode text = some configuration

abbrev template : Option Text
template = some (codes "backend: redis")

loads : (load_config disk decode template (some app) none).1 ≡ loaded configuration
unfolding load_config
loads = refl

-- The queue that is built from the sample configuration.
abbrev ready : Queue ℕ
ready = assemble (some app) (set_config_defaults configuration)

makes : (new {W = ℕ} disk decode template 100000 (some app) none).1 ≡ created ready
unfolding new new_with_config load_config build_queue set_config_defaults
makes = refl

new_again_example :
    let f = (new {W = ℕ} disk decode template 100000 (some app) none).0 in
    IsReady ready
    × (disk.stat (app.root_path ++ config_file) f ≡ present)
    × (new disk decode template 100000 (some app) f ≡ (f, created ready))
new_again_example = new_again disk decode template 100000 app none ready refl makes
