-- ===== src/Bench/Built.antt =====
-- internal/bench/benchjobs: what the constructors put into the jobs that they return.
use mathlib.Core.Path.{subst}
use mathlib.Core.Option.{some-injective, none-ne-some}
use adele_queue.Base.{◌≡◌, refl, sym, ◌∙◌, true, none, some, Option-cases, inl, inr, String}
use adele_queue.Base.Int.{pos}
use adele_queue.Base.Text.{Text, codes}
use adele_queue.Handler.{Handler}
use adele_queue.Job.{Job, zero_job}
use adele_queue.Bench.{World, Codec, new_job, new_retried_job}

-- What is known of a job that `new_retried_job` returned.
pub record IsNew {F P : Type 0} (codec : Codec P) (h : Handler (World F)) (name : String) (p : P)
    (job : Job (World F)) : Type 0 where
  pub raw : Text
  pub marshalled : codec.marshal p ≡ some raw
  pub payload : job.payload ≡ some raw
  pub inline : job.handler ≡ some h
  pub named : job.name ≡ name
  pub retries : job.retry ≡ true
  pub counter : job.retry_counter ≡ pos 0

-- A job by its name and its handler.
abbrev pub IsNamed : {W : Type 0} → String → Handler W → Job W → Type 0
IsNamed name h job = (job.name ≡ name) × (job.handler ≡ some h)

module _ {F P : Type 0} (codec : Codec P) (h : Handler (World F)) (name : String) (p : P) where
  built_job : Text → Job (World F)
  built_job raw = record zero_job {
    name = name;
    payload = some raw;
    handler = some h;
    queue = codes "job";
    retry = true;
    retry_in_seconds = pos 1;
  }

  new_retried_job-none : codec.marshal p ≡ none → new_retried_job codec name h p ≡ none
  unfolding new_retried_job
  new_retried_job-none e = rw (e, new_retried_job)

  new_retried_job-some :
      (raw : Text)
      → codec.marshal p ≡ some raw
      → new_retried_job codec name h p ≡ some (built_job raw)
  unfolding built_job new_retried_job
  new_retried_job-some raw e = rw (e, new_retried_job)

  built_job-IsNew : (raw : Text) → codec.marshal p ≡ some raw → IsNew codec h name p (built_job raw)
  unfolding built_job
  built_job-IsNew raw e = record {
    raw = raw;
    marshalled = e;
    payload = refl;
    inline = refl;
    named = refl;
    retries = refl;
    counter = refl;
  }

  pub new_retried_job-IsNew :
      (job : Job (World F)) → new_retried_job codec name h p ≡ some job → IsNew codec h name p job
  new_retried_job-IsNew job built = elim (Option-cases (codec.marshal p)) [
    | inl e ↦ absurd (none-ne-some job (sym (new_retried_job-none e) ∙ built))
    | inr (raw, e) ↦
        subst (IsNew codec h name p)
          (some-injective (built_job raw) job (sym (new_retried_job-some raw e) ∙ built))
          (built_job-IsNew raw e)
  ]

  new_job-none : codec.marshal p ≡ none → new_job codec name h p ≡ none
  unfolding new_job
  new_job-none e = rw (e, new_job)

  plain_job : Text → Job (World F)
  plain_job raw = record zero_job {
    name = name;
    payload = some raw;
    handler = some h;
    queue = codes "job";
  }

  new_job-some :
      (raw : Text) → codec.marshal p ≡ some raw → new_job codec name h p ≡ some (plain_job raw)
  unfolding plain_job new_job
  new_job-some raw e = rw (e, new_job)

  plain_job-IsNamed : (raw : Text) → IsNamed name h (plain_job raw)
  unfolding plain_job
  plain_job-IsNamed raw = (refl, refl)

  pub new_job-IsNamed :
      (job : Job (World F)) → new_job codec name h p ≡ some job → IsNamed name h job
  new_job-IsNamed job built = elim (Option-cases (codec.marshal p)) [
    | inl e ↦ absurd (none-ne-some job (sym (new_job-none e) ∙ built))
    | inr (raw, e) ↦
        subst (IsNamed name h)
          (some-injective (plain_job raw) job (sym (new_job-some raw e) ∙ built))
          (plain_job-IsNamed raw)
  ]

  pub new_retried_job-IsNamed :
      (job : Job (World F)) → new_retried_job codec name h p ≡ some job → IsNamed name h job
  new_retried_job-IsNamed job built = let j = new_retried_job-IsNew job built in (j.named, j.inline)
