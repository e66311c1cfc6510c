-- ===== src/Redis/Steps/Pending.antt =====
-- What the commands of a visit do to the pending and the locked key of a job (api/redis.go).
use adele_queue.Base.{◌≡◌, ◌≢◌, refl, ◌∙◌, arith, false, none, some, Option, Option-cases, inl, inr}
use adele_queue.Base.Text.{Text, text_eq, text_eq_refl}
use adele_queue.Job.{Hash, scan_struct}
use adele_queue.Key.{KeyState, pending, locked, complete, key}
use adele_queue.Key
use adele_queue.Key.Distinct.{
  text_eq-locked_pending, text_eq-complete_pending, text_eq-failed_pending,
}
use adele_queue.Redis.{RedisApi, IsReliable, Fields, written, value, set_redis_key, get_redis_value}
use adele_queue.Redis.View.{view, stored, moved, view-hset, view-rename}

key_apart :
    (st : KeyState) (queue id : Text)
    → st ≢ pending
    → text_eq (key st queue id) (key pending queue id) ≡ false
key_apart pending queue id ne = absurd (ne refl)
key_apart locked queue id ne = text_eq-locked_pending queue id id
key_apart complete queue id ne = text_eq-complete_pending queue id id
key_apart Key.failed queue id ne = text_eq-failed_pending queue id id

module _ {S : Type 0} (api : RedisApi S) (reliable : IsReliable api) (queue id : Text) (s : S) where
  -- What a key of the job holds.
  abbrev pub under : KeyState → S → Option Hash
  under st t = view api t (key st queue id)

  -- HSET on a locked key leaves the pending key.
  pub pending-hset_locked :
      (other : Text) (f : Fields)
      → view api (api.hset (key locked queue other) f s).0 (key pending queue id)
        ≡ view api s (key pending queue id)
  unfolding stored
  pending-hset_locked other f = ground (
    arith,
    view-hset api reliable (key locked queue other) f s (key pending queue id),
    text_eq-locked_pending queue other id,
  )

  pub locked-hset_locked :
      (f : Fields)
      → view api (api.hset (key locked queue id) f s).0 (key locked queue id)
        ≡ some (written f (view api s (key locked queue id)))
  unfolding stored
  locked-hset_locked f =
      view-hset api reliable (key locked queue id) f s (key locked queue id)
      ∙ rw (text_eq_refl (key locked queue id)) refl

  -- A claim of a job whose pending key is gone.
  pub claim_missing :
      view api s (key pending queue id) ≡ none
      → ((set_redis_key api queue id pending locked s).1 ≢ none)
        × ((j : Text) → view api (set_redis_key api queue id pending locked s).0 j ≡ view api s j)
  unfolding set_redis_key
  claim_missing gone = (
    api.rename_missing (key pending queue id) (key locked queue id) s gone,
    reliable.rename_rejected (key pending queue id) (key locked queue id) s gone,
  )

  -- A claim of a job that is pending.
  pub claim_found :
      (x : Hash)
      → view api s (key pending queue id) ≡ some x
      → ((set_redis_key api queue id pending locked s).1 ≡ none)
        × (view api (set_redis_key api queue id pending locked s).0 (key pending queue id) ≡ none)
        × (view api (set_redis_key api queue id pending locked s).0 (key locked queue id) ≡ some x)
  unfolding set_redis_key moved
  claim_found x e =
      let a = key pending queue id in
      let b = key locked queue id in
      (
        reliable.rename_accepted a b s x e,
        view-rename api reliable a b s x a e
            ∙ rw (text_eq-locked_pending queue id id, text_eq_refl a) refl,
        view-rename api reliable a b s x b e ∙ rw (text_eq_refl b) refl,
      )

  -- What a worker or the reaper reads of a locked job.
  pub read_locked :
      {W : Type 0} (x : Hash)
      → view api s (key locked queue id) ≡ some x
      → get_redis_value api queue id locked s ≡ value (scan_struct {W = W} x)
  unfolding get_redis_value
  read_locked x e = ground (arith, reliable.hgetall_accepted (key locked queue id) s, e)

  -- A locked job that is put back.
  pub put_back :
      (x : Hash)
      → view api s (key locked queue id) ≡ some x
      → view api (set_redis_key api queue id locked pending s).0 (key pending queue id) ≡ some x
  unfolding set_redis_key moved
  put_back x e =
      view-rename api reliable (key locked queue id) (key pending queue id) s x
        (key pending queue id) e
      ∙ rw (text_eq_refl (key pending queue id)) refl

  -- Moving a locked job elsewhere leaves its pending key gone.
  pub moved_off :
      (st : KeyState)
      → st ≢ pending
      → view api s (key pending queue id) ≡ none
      → view api (set_redis_key api queue id locked st s).0 (key pending queue id) ≡ none
  unfolding set_redis_key moved
  moved_off st ne gone = elim (Option-cases (view api s (key locked queue id))) [
    | inl missing ↦
        reliable.rename_rejected (key locked queue id) (key st queue id) s missing
          (key pending queue id)
        ∙ gone
    | inr (x, e) ↦
        view-rename api reliable (key locked queue id) (key st queue id) s x (key pending queue id)
          e
        ∙ rw (key_apart st queue id ne, text_eq-locked_pending queue id id) gone
  ]
