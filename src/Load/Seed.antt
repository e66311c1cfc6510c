-- ===== src/Load/Seed.antt =====
-- What `loadConfig` of api/queue.go leaves on the disk, and what it reads from there.
use adele_queue.Base.{
  ◌≡◌, ◌≢◌, sym, ap, arith, true, Option, some, inl, inr, Bool, Option-cases, ◌++◌, ◌∙◌,
}
use adele_queue.Base.Text.{Text}
use adele_queue.Config.{Configuration}
use adele_queue.Queue.{App}
use adele_queue.Load.{FileSystem, present, missing, loaded, config_file, read_config, load_config}

module _ {F : Type 0} (files : FileSystem F) (decode : Text → Option Configuration)
    (template : Option Text) (a : App) (f : F) where
  abbrev path : Text
  path = a.root_path ++ config_file

  -- What a configuration that was read comes from.
  read_config_loaded :
      (g : F) (c : Configuration)
      → read_config files decode template path g ≡ loaded c
      → (text : Text) × (files.read_file path g ≡ some text) × (decode text ≡ some c)
  unfolding read_config
  read_config_loaded g c h = elim (Option-cases (files.read_file path g)) [
    | inl unread ↦ absurd (ground (arith, h, unread))
    | inr (text, read) ↦ (text, read, ground (arith, h, read))
  ]

  kept :
      files.stat path f ≢ missing
      → load_config files decode template (some a) f ≡ (f, read_config files decode template path f)
  unfolding load_config
  kept h = ground (arith, h)

  -- A file that is there is never written: where `Stat` does not say that it is missing, loading
  -- leaves the disk alone, and the configuration is the file's.
  pub load_config_kept :
      files.stat path f ≢ missing
      → let (f', l) = load_config files decode template (some a) f in
        (f' ≡ f)
        × ((c : Configuration)
            → l ≡ loaded c
            → (text : Text) × (files.read_file path f ≡ some text) × (decode text ≡ some c))
  unfolding load_config
  load_config_kept h =
      (ap (λ x. x.0) (kept h), λ c e. read_config_loaded f c (sym (ap (λ x. x.1) (kept h)) ∙ e))

  abbrev directory : F × Bool
  directory = files.mkdir_all (files.dir path) f

  abbrev file : Text → F × Bool
  file text = files.write_file path text directory.0

  -- A load that finds no file and succeeds has made the directory and written the template.
  seeded :
      (c : Configuration)
      → files.stat path f ≡ missing
      → (load_config files decode template (some a) f).1 ≡ loaded c
      → (text : Text) × (template ≡ some text)
        × ((file text).1 ≡ true)
        × (load_config files decode template (some a) f ≡ ((file text).0, loaded c))
        × (read_config files decode template path (file text).0 ≡ loaded c)
  unfolding load_config
  seeded c gone h = elim (Option-cases template) [
    | inl absent ↦ absurd (ground (arith, gone, h, absent))
    | inr (text, held) ↦ (
      text,
      held,
      ground (arith, gone, h, held),
      ground (arith, gone, h, held),
      ground (arith, gone, h, held),
    )
  ]

module _ {F : Type 0} (files : FileSystem F) (decode : Text → Option Configuration)
    (template : Option Text) (a : App) (f : F) (c : Configuration) where
  -- What was written, and read again.
  read_back :
      (text : Text)
      → (file files decode template a f text).1 ≡ true
      → read_config files decode template
          (path files decode template a f)
          (file files decode template a f text).0
        ≡ loaded c
      → decode text ≡ some c
  read_back text wrote read =
      let (text', found, parsed) =
        read_config_loaded files decode template a f (file files decode template a f text).0 c
          read in
      ground (
        arith,
        found,
        parsed,
        files.read_file-write_file (path files decode template a f) text
            (directory files decode template a f).0 wrote,
      )

  -- Where the file is missing and loading succeeds, the configuration is that of the embedded
  -- template, the file is there from then on, and loading again gives the same configuration and
  -- writes nothing.
  pub load_config_seeds :
      files.stat (a.root_path ++ config_file) f ≡ missing
      → (load_config files decode template (some a) f).1 ≡ loaded c
      → let f' = (load_config files decode template (some a) f).0 in
        ((text : Text) × (template ≡ some text) × (decode text ≡ some c))
        × (files.stat (a.root_path ++ config_file) f' ≡ present)
        × (load_config files decode template (some a) f' ≡ (f', loaded c))
  load_config_seeds gone h =
      let (text, held, wrote, step, read) = seeded files decode template a f c gone h in
      let there =
        files.stat-write_file (path files decode template a f) text
          (directory files decode template a f).0 wrote in
      rw (ap (λ x. x.0) step) (
        (text, held, read_back text wrote read),
        there,
        kept files decode template a (file files decode template a f text).0
              (λ e. ground (arith, there, e))
            ∙ ap (λ l. ((file files decode template a f text).0, l)) read,
      )
