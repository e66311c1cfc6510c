-- ===== src/Load/Again.antt =====
-- `New` of api/queue.go in a project without a configuration file, and again after it.
use adele_queue.Base.{ℕ, ◌≡◌, refl, ap, ◌∙◌, arith, Option, some, ◌++◌}
use adele_queue.Base.Text.{Text}
use adele_queue.Config.{Configuration}
use adele_queue.Queue.{App, Queue, build_queue}
use adele_queue.Queue.Build.{IsReady, build_queue-IsReady}
use adele_queue.Load.{
  FileSystem, present, missing, Loaded, loaded, load_error, config_file, load_config, Created,
  created, refused, built, new_with_config, new,
}
use adele_queue.Load.Seed.{load_config_seeds}

module _ {F W : Type 0} (files : FileSystem F) (decode : Text → Option Configuration)
    (template : Option Text) (room : ℕ) (a : App) (f : F) where
  -- What `New` makes of a loaded configuration.
  abbrev finished : F × Loaded → F × Created W
  finished r =
      (r.0, elim r.1 [ load_error e ↦ refused e | loaded c ↦ new_with_config room (some a) c ])

  new_steps :
      new files decode template room (some a) f
      ≡ finished (load_config files decode template (some a) f)
  unfolding new
  new_steps = refl

  built_queue :
      (c : Configuration) (q : Queue W)
      → new_with_config room (some a) c ≡ created q
      → build_queue room (some a) c ≡ some q
  unfolding new_with_config built
  built_queue c q e = ground (arith, e)

  loaded_of :
      (l : Loaded) (q : Queue W)
      → (finished (f, l)).1 ≡ created q
      → (c : Configuration) × (l ≡ loaded c) × (new_with_config room (some a) c ≡ created q)
  loaded_of (loaded c) q e = (c, refl, e)
  loaded_of (load_error x) q e = absurd (ground (arith, e))

  -- Where the project has no configuration file and `New` returns a queue, the queue is ready, the
  -- file is there from then on, and `New` again returns the same queue and leaves the disk as it
  -- is.
  pub new_again :
      (q : Queue W)
      → files.stat (a.root_path ++ config_file) f ≡ missing
      → (new files decode template room (some a) f).1 ≡ created q
      → let f' = (new {W = W} files decode template room (some a) f).0 in
        IsReady q
        × (files.stat (a.root_path ++ config_file) f' ≡ present)
        × (new files decode template room (some a) f' ≡ (f', created q))
  unfolding new
  new_again q gone e =
      let (c, was, made) = loaded_of (load_config files decode template (some a) f).1 q e in
      let (source, there, again) = load_config_seeds files decode template a f c gone was in
      (
        (build_queue-IsReady room (some a) c).0 q (built_queue c q made),
        there,
        ap finished again ∙ ap (λ r. ((load_config files decode template (some a) f).0, r)) made,
      )
