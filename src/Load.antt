-- ===== src/Load.antt =====
-- api/queue.go, `loadConfig`, `New` and `NewWithConfig`.
pub mod Seed
pub mod Again
use adele_queue.Base.{ℕ, Bool, true, ◌++◌, Option, none, some, ◌≡◌, if◌then◌else◌, ◌⊎◌}
use adele_queue.Base.Text.{Text, codes}
use adele_queue.Config.{Configuration}
use adele_queue.Queue.{App, Queue, build_queue}

-- How `os.Stat` ends: by nil, by an error that is `IsNotExist`, or by another one.
pub data Stat : Type 0 where
  present missing unknown : Stat

-- The file system that `os` and `filepath` reach, in the states `F`; `true` is an operation without
-- an error. A file that was written is there, with its text; making a directory and writing a file
-- leave what other paths hold, as far as files go.
pub record FileSystem (F : Type 0) : Type 0 where
  pub dir : Text → Text
  pub stat : Text → F → Stat
  pub mkdir_all : Text → F → F × Bool
  pub write_file : Text → Text → F → F × Bool
  pub read_file : Text → F → Option Text
  pub stat-write_file :
      (path text : Text) (f : F)
      → (write_file path text f).1 ≡ true
      → stat path (write_file path text f).0 ≡ present
  pub read_file-write_file :
      (path text : Text) (f : F)
      → (write_file path text f).1 ≡ true
      → (read_file path (write_file path text f).0 ≡ none)
        ⊎ (read_file path (write_file path text f).0 ≡ some text)

pub data LoadError : Type 0 where
  no_template bad_template no_directory not_written not_read bad_file : LoadError

pub data Loaded : Type 0 where
  loaded : Configuration → Loaded
  load_error : LoadError → Loaded

abbrev pub config_file : Text
config_file = codes "/config/queue.yml"

-- `yaml.Unmarshal` into a zero `Configuration`.
abbrev decoded : LoadError → Option Configuration → Loaded
decoded e none = load_error e
decoded e (some c) = loaded c

-- `decode` is the YAML decoder, and `template` the embedded file.
module _ {F : Type 0} (files : FileSystem F) (decode : Text → Option Configuration)
    (template : Option Text) where
  -- What is done where the file is missing.
  seed : Text → Text → F → F × Option LoadError
  seed path text f =
      let (f', made) = files.mkdir_all (files.dir path) f in
      if made
      then (let (f'', written) = files.write_file path text f' in
          (f'', if written then none else some not_written))
      else (f', some no_directory)

  -- The part of `loadConfig` before the file is read.
  seed_missing : Text → Stat → F → F × Option LoadError
  unfolding seed
  seed_missing path present f = (f, none)
  seed_missing path unknown f = (f, none)
  seed_missing path missing f = elim template [
    | none ↦ (f, some no_template)
    | some text ↦ seed path text f
  ]

  read_config : Text → F → Loaded
  read_config path f = elim (files.read_file path f) [
    | none ↦ load_error not_read
    | some text ↦ decoded bad_file (decode text)
  ]

  unfoldable pub load_config : Option App → F → F × Loaded
  unfolding seed_missing read_config
  load_config none f = (
    f,
    elim template [
      | none ↦ load_error no_template
      | some text ↦ decoded bad_template (decode text)
    ],
  )
  load_config (some a) f =
      let path = a.root_path ++ config_file in
      let (f', e) = seed_missing path (files.stat path f) f in
      (f', elim e [ some x ↦ load_error x | none ↦ read_config path f' ])

-- How `New` ends: with a queue, by an error, or by the panic of `buildQueue`.
pub data Created (W : Type 0) : Type 0 where
  created : Queue W → Created W
  refused : LoadError → Created W
  crashed : Created W

built : {W : Type 0} → Option (Queue W) → Created W
built none = crashed
built (some q) = created q

unfoldable pub new_with_config : {W : Type 0} → ℕ → Option App → Configuration → Created W
unfolding built
new_with_config room a config = built (build_queue room a config)

unfoldable pub new :
    {F W : Type 0}
    → FileSystem F
    → (Text → Option Configuration)
    → Option Text
    → ℕ
    → Option App
    → F
    → F × Created W
new files decode template room a f =
    let (f', l) = load_config files decode template a f in
    (f', elim l [ load_error e ↦ refused e | loaded c ↦ new_with_config room a c ])
