-- ===== src/Queue/Build.antt =====
-- What `buildQueue` of api/queue.go guarantees of the queue that it returns.
use mathlib.Core.Path.{subst}
use adele_queue.Base.{
  ◌≡◌, ◌⊎◌, inl, inr, ◌||◌, ◌↔◌, ℕ, refl, arith, Bool, true, false, List, [], ◌∷◌, ◌++◌, Option,
  none, some, any, if◌then◌else◌,
}
use adele_queue.Base.Int.{pos, ltb_ℤ, ◌<ℤ◌}
use adele_queue.Base.Text.{Text, text_eq, text_eq_refl}
use adele_queue.Config.{Configuration, set_config_defaults}
use adele_queue.Config.Defaults.{IsComplete, set_config_defaults-IsComplete}
use adele_queue.Queue.{App, Queue, contains, with_default, assemble, build_queue}

pub record IsReady {W : Type 0} (q : Queue W) : Type 0 where
  pub backend_known : (q.backend ≡ "memory") ⊎ (q.backend ≡ "redis")
  pub default_listed : contains q.queue_channels q.queue_channel_default ≡ true
  pub reaper : pos 0 <ℤ q.reaper_interval
  pub lock : pos 0 <ℤ q.lock_timeout
  pub idle : (q.pending_count ≡ pos 0) × (q.cancelled ≡ false)
  pub nothing_failed : q.failed_jobs ≡ []

any-append_last :
    (p : Text → Bool) (xs : List Text) (x : Text) → p x ≡ true → any p (xs ++ x ∷ []) ≡ true
any-append_last p [] x h = ground arith
any-append_last p (y ∷ ys) x h = ground (arith, any-append_last p ys x h)

with_default-contains :
    (channels : List Text) (c : Text) → contains (with_default channels c) c ≡ true
unfolding with_default contains
with_default-contains channels c =
    ground (arith, any-append_last (λ (d : Text). text_eq d c) channels c (text_eq_refl c))

assemble-IsReady :
    {W : Type 0} (a : Option App) (c : Configuration)
    → IsComplete c
    → IsReady (assemble {W = W} a c)
unfolding assemble
assemble-IsReady a c h = record {
  backend_known = h.backend_known;
  default_listed = with_default-contains c.queue_channels c.queue_channel_default;
  reaper = h.reaper;
  lock = h.lock;
  idle = (refl, refl);
  nothing_failed = refl;
}

if_none-some : {A : Type 0} (b : Bool) {x y : A} → (if b then none else some x) ≡ some y → x ≡ y
if_none-some b h = ground arith

negative_kept :
    (cfg : Configuration)
    → ltb_ℤ (set_config_defaults cfg).high_water_mark (pos 0) ≡ ltb_ℤ cfg.high_water_mark (pos 0)
unfolding set_config_defaults
negative_kept cfg = ground arith

refused_iff :
    {A : Type 0} (x : A) (b c : Bool)
    → ((if b || c then none else some x) ≡ none) ↔ (b ≡ true) ⊎ (c ≡ true)
refused_iff x true c = (λ _. inl refl, λ _. refl)
refused_iff x false true = (λ _. inr refl, λ _. refl)
refused_iff x false false = (λ e. absurd (ground (arith, e)), λ e. absurd (ground (arith, e)))

-- A queue that is built is ready: its backend is known, its default channel is listed, its timeouts
-- are positive, nothing is pending and nothing has failed. Building panics exactly when the
-- configured high water mark is negative, or is, by default where it is 0, above the capacity
-- `room` that the runtime can make a slice of.
pub build_queue-IsReady :
    {W : Type 0} (room : ℕ) (a : Option App) (cfg : Configuration)
    → ((q : Queue W) → build_queue room a cfg ≡ some q → IsReady q)
      × ((build_queue {W = W} room a cfg ≡ none)
          ↔ (cfg.high_water_mark <ℤ pos 0)
            ⊎ (pos room <ℤ (set_config_defaults cfg).high_water_mark))
unfolding build_queue
build_queue-IsReady {W} room a cfg = (
  λ q h. subst IsReady (if_none-some _ h) ready,
  (
    λ h. elim (refusal.0 h) [
      | inl b ↦ inl (ground (arith, negative_kept cfg, b))
      | inr c ↦ inr (ground (arith, c))
    ],
    λ h. refusal.1 (elim h [
      | inl b ↦ inl (ground (arith, negative_kept cfg, b))
      | inr c ↦ inr (ground (arith, c))
    ]),
  ),
)
  where
    c : Configuration
    c = set_config_defaults cfg

    refusal :
        ((if ltb_ℤ c.high_water_mark (pos 0) || ltb_ℤ (pos room) c.high_water_mark
            then none
            else some (assemble {W = W} a c))
          ≡ none)
        ↔ (ltb_ℤ c.high_water_mark (pos 0) ≡ true) ⊎ (ltb_ℤ (pos room) c.high_water_mark ≡ true)
    refusal = refused_iff (assemble {W = W} a c) _ _

    ready : IsReady (assemble {W = W} a (set_config_defaults cfg))
    ready = assemble-IsReady a (set_config_defaults cfg) (set_config_defaults-IsComplete cfg)
