-- ===== src/Redis/View.antt =====
-- What the commands of api/redis.go do to the keyspace, on a server that carries them out.
use mathlib.Core.Path.{fun_ext}
use adele_queue.Base.{ap, ◌≡◌, refl, ◌∙◌, arith, Option, none, some, if◌then◌else◌}
use adele_queue.Base.Text.{Text, text_eq, text_eq_refl}
use adele_queue.Job.{Job, Hash, add_flat}
use adele_queue.Key.{KeyState, locked, key}
use adele_queue.Redis.{RedisApi, IsReliable, Fields, all_fields, written, set_redis_key, move_job}

-- The hashes by key.
abbrev pub Keyspace : Type 0
Keyspace = Text → Option Hash

-- The hash `h` under `new` in place of what stood under `old`.
unfoldable pub moved : Text → Text → Hash → Keyspace → Keyspace
moved old new h ks j = if text_eq new j then some h else if text_eq old j then none else ks j

unfoldable pub stored : Text → Hash → Keyspace → Keyspace
stored k h ks j = if text_eq k j then some h else ks j

pub written_all : (h : Hash) (o : Option Hash) → written (all_fields h) o ≡ h
written_all h none = refl
written_all h (some k) = refl

pub moved-stored :
    (a b : Text) (h x : Hash) (ks : Keyspace) (j : Text)
    → moved a b h (stored a x ks) j ≡ moved a b h ks j
unfolding moved stored
moved-stored a b h x ks j = ground arith

-- There and back again.
pub moved-moved :
    (a b : Text) (h : Hash) (ks : Keyspace) (j : Text)
    → moved b a h (moved a b h ks) j ≡ moved b a h ks j
unfolding moved
moved-moved a b h ks j = ground arith

module _ {S : Type 0} (api : RedisApi S) where
  -- The keyspace of a server.
  abbrev pub view : S → Keyspace
  view s j = api.get j s

module _ {S : Type 0} (api : RedisApi S) (reliable : IsReliable api) where
  pub view-hset :
      (k : Text) (f : Fields) (s : S) (j : Text)
      → view api (api.hset k f s).0 j ≡ stored k (written f (view api s k)) (view api s) j
  unfolding stored
  view-hset k f s j = api.get-hset k f s (reliable.hset_accepted k f s) j

  pub view-hset_all :
      (k : Text) (h : Hash) (s : S) (j : Text)
      → view api (api.hset k (all_fields h) s).0 j ≡ stored k h (view api s) j
  view-hset_all k h s j = view-hset k (all_fields h) s j ∙ rw (written_all h (api.get k s))

  pub view-hset_self :
      (k : Text) (h : Hash) (s : S) → view api (api.hset k (all_fields h) s).0 k ≡ some h
  unfolding stored
  view-hset_self k h s = view-hset_all k h s k ∙ rw (text_eq_refl k)

  pub view-rename :
      (a b : Text) (s : S) (h : Hash) (j : Text)
      → view api s a ≡ some h
      → view api (api.rename a b s).0 j ≡ moved a b h (view api s) j
  unfolding moved
  view-rename a b s h j e = api.get-rename a b s h (reliable.rename_accepted a b s h e) e j

module _ {S W : Type 0} (api : RedisApi S) (reliable : IsReliable api) where
  move_job_steps :
      (queue id : Text) (new : KeyState) (job : Job W) (s : S)
      → move_job api queue id new job s
        ≡ api.rename
            (key locked queue id)
            (key new queue id)
            (api.hset (key locked queue id) (all_fields (add_flat job)) s).0
  unfolding move_job set_redis_key
  move_job_steps queue id new job s =
      ground (arith, reliable.hset_accepted (key locked queue id) (all_fields (add_flat job)) s)

  -- Storing a job under its locked key and renaming it moves it, without an error.
  pub view-move_job :
      (queue id : Text) (new : KeyState) (job : Job W) (s : S)
      → ((j : Text)
          → view api (move_job api queue id new job s).0 j
            ≡ moved (key locked queue id) (key new queue id) (add_flat job) (view api s) j)
        × ((move_job api queue id new job s).1 ≡ none)
  view-move_job queue id new job s = rw (move_job_steps queue id new job s) (
    λ j.
        view-rename api reliable from (key new queue id) s' h j held
        ∙ ap (λ (ks : Keyspace). moved from (key new queue id) h ks j)
            (fun_ext (view-hset_all api reliable from h s))
        ∙ moved-stored from (key new queue id) h h (view api s) j,
    reliable.rename_accepted from (key new queue id) s' h held,
  )
    where
      from : Text
      from = key locked queue id

      h : Hash
      h = add_flat job

      s' : S
      s' = (api.hset from (all_fields h) s).0

      held : view api s' from ≡ some h
      held = view-hset_self api reliable from h s
