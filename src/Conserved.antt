-- ===== src/Conserved.antt =====
-- A job on the redis backend by its four keys, and the commands that api/queue.go, api/redis.go and
-- api/reaper.go send (HSET, RENAME, DEL).
pub mod Worker
pub mod Operations
pub mod Rounds
pub mod Labels
use adele_queue.Base.{◌≡◌, refl, ◌∙◌, some, Bool-cases, Option-cases, inl, inr}
use mathlib.Core.Path.{subst}
use adele_queue.Base.Text.{Text, text_eq, text_eq_refl, text_eq_sound}
use adele_queue.Job.{Hash}
use adele_queue.Key.{KeyState, pending, locked, key}
use adele_queue.Key.Split.{NoColon}
use adele_queue.Key.Distinct.{key-same_job, text_eq-locked_pending}
use adele_queue.Redis.{RedisApi, IsReliable, Fields, written, set_redis_key}
use adele_queue.Redis.View.{view, moved, view-hset, view-rename, stored}

module _ {S : Type 0} (api : RedisApi S) where
  -- The job `id` of `queue` stands under one of its four keys.
  pub record IsHeld (queue id : Text) (s : S) : Type 0 where
    pub state : KeyState
    pub hash : Hash
    pub found : view api s (key state queue id) ≡ some hash

  -- Every job whose queue and id are without colons is held afterwards if it was held before.
  pub record Keeps (s s' : S) : Type 0 where
    pub kept :
        (queue id : Text) → NoColon queue → NoColon id → IsHeld queue id s → IsHeld queue id s'

  pub Keeps-refl : (s : S) → Keeps s s
  Keeps-refl s = record { kept = λ queue id hq hid h. h }

  pub Keeps-trans : {s t u : S} → Keeps s t → Keeps t u → Keeps s u
  Keeps-trans a b = record {
    kept = λ queue id hq hid h. b.kept queue id hq hid (a.kept queue id hq hid h);
  }

  -- What the keys of one job give is another's where they are the same.
  IsHeld-same :
      {queue id queue' id' : Text} {s : S}
      → (queue ≡ queue') × (id ≡ id')
      → IsHeld queue id s
      → IsHeld queue' id' s
  IsHeld-same {id} {queue'} {s} (e, e') h =
      subst (λ i. IsHeld queue' i s) e' (subst (λ c. IsHeld c id s) e h)

module _ {S : Type 0} (api : RedisApi S) (reliable : IsReliable api) where
  pub hset-Keeps : (k : Text) (f : Fields) (s : S) → Keeps api s (api.hset k f s).0
  unfolding stored
  hset-Keeps k f s = record {
    kept = λ queue id hq hid h. elim (Bool-cases (text_eq k (key h.state queue id))) [
      | inl same ↦ record {
        state = h.state;
        hash = written f (view api s k);
        found = view-hset api reliable k f s (key h.state queue id) ∙ rw same refl;
      }
      | inr other ↦ record {
        state = h.state;
        hash = h.hash;
        found = view-hset api reliable k f s (key h.state queue id) ∙ rw (other, h.found) refl;
      }
    ];
  }

  module _ (c i : Text) (hc : NoColon c) (hi : NoColon i) (s : S) where
    renamed-IsHeld :
        (old new : KeyState) (g : Hash)
        → view api s (key old c i) ≡ some g
        → IsHeld api c i (set_redis_key api c i old new s).0
    unfolding set_redis_key moved
    renamed-IsHeld old new g e = record {
      state = new;
      hash = g;
      found =
          view-rename api reliable (key old c i) (key new c i) s g (key new c i) e
          ∙ rw (text_eq_refl (key new c i)) refl;
    }

    renamed-Keeps :
        (old new : KeyState) (g : Hash)
        → view api s (key old c i) ≡ some g
        → Keeps api s (set_redis_key api c i old new s).0
    unfolding set_redis_key moved
    renamed-Keeps old new g e = record {
      kept = λ queue id hq hid h. elim (Bool-cases (text_eq (key new c i) (key h.state queue id))) [
        | inl same ↦ record {
          state = h.state;
          hash = g;
          found =
              view-rename api reliable (key old c i) (key new c i) s g (key h.state queue id) e
              ∙ rw same refl;
        }
        | inr other ↦ elim (Bool-cases (text_eq (key old c i) (key h.state queue id))) [
          | inl gone ↦
              IsHeld-same api
                (key-same_job old h.state c i queue id hc hi hq hid
                  (text_eq_sound (key old c i) (key h.state queue id) gone))
                (renamed-IsHeld old new g e)
          | inr there ↦ record {
            state = h.state;
            hash = h.hash;
            found =
                view-rename api reliable (key old c i) (key new c i) s g (key h.state queue id) e
                ∙ rw (other, there, h.found) refl;
          }
        ]
      ];
    }

    -- RENAME within the keys of one job.
    pub set_redis_key-Keeps : (old new : KeyState) → Keeps api s (set_redis_key api c i old new s).0
    unfolding set_redis_key
    set_redis_key-Keeps old new = elim (Option-cases (view api s (key old c i))) [
      | inl missing ↦ record {
        kept = λ queue id hq hid h. record {
          state = h.state;
          hash = h.hash;
          found =
              reliable.rename_rejected (key old c i) (key new c i) s missing (key h.state queue id)
              ∙ h.found;
        };
      }
      | inr (g, e) ↦ renamed-Keeps old new g e
    ]

    -- DEL of the locked key of a job that has a pending one.
    pub del-Keeps :
        (g : Hash)
        → view api s (key pending c i) ≡ some g
        → Keeps api s (api.del (key locked c i) s).0
    del-Keeps g e = record {
      kept = λ queue id hq hid h.
          elim (Bool-cases (text_eq (key locked c i) (key h.state queue id))) [
            | inl gone ↦
                IsHeld-same api
                  (key-same_job locked h.state c i queue id hc hi hq hid
                    (text_eq_sound (key locked c i) (key h.state queue id) gone))
                  (record {
                    state = pending;
                    hash = g;
                    found =
                        api.get-del (key locked c i) s (reliable.del_accepted (key locked c i) s)
                          (key pending c i)
                        ∙ rw (text_eq-locked_pending c i i, e) refl;
                  })
            | inr there ↦ record {
              state = h.state;
              hash = h.hash;
              found =
                  api.get-del (key locked c i) s (reliable.del_accepted (key locked c i) s)
                    (key h.state queue id)
                  ∙ rw (there, h.found) refl;
            }
          ];
    }
