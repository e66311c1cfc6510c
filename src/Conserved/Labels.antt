-- ===== src/Conserved/Labels.antt =====
-- What the hashes of the jobs on the redis backend carry: the id that their key names, and one name
-- and payload per job, through the commands of api/queue.go, api/redis.go and api/reaper.go.
pub mod Worker
pub mod Reaper
use adele_queue.Base.{
  ◌≡◌, refl, sym, ◌∙◌, arith, ◌⊎◌, inl, inr, String, Bool, true, false, Option, none, some,
  Option-cases, if◌then◌else◌,
}
use mathlib.Core.Path.{subst}
use adele_queue.Base.Text.{Text, text_eq, text_eq_sound}
use adele_queue.Job.{Hash}
use adele_queue.Key.{KeyState, key}
use adele_queue.Key.Split.{NoColon}
use adele_queue.Key.Distinct.{key-same_job}
use adele_queue.Redis.{RedisApi, IsReliable, Fields, written, set_redis_key}
use adele_queue.Redis.View.{view, moved, view-hset, view-rename, stored}

-- `label queue id` are the name and the payload of a job.
abbrev pub Labels : Type 0
Labels = Text → Text → String × Text

pub record Bears (label : Labels) (queue id : Text) (g : Hash) : Type 0 where
  pub id_kept : g.id ≡ id
  pub name_kept : g.name ≡ (label queue id).0
  pub payload_kept : g.payload ≡ some (label queue id).1

-- Every hash under a key of a job carries its label.
pub record IsLabelled {S : Type 0} (api : RedisApi S) (label : Labels) (s : S) : Type 0 where
  pub bears :
      (st : KeyState) (queue id : Text)
      → NoColon queue
      → NoColon id
      → (g : Hash) → view api s (key st queue id) ≡ some g
      → Bears label queue id g

Bears-same :
    (label : Labels) {c i c' i' : Text} {x g : Hash}
    → (c ≡ c') × (i ≡ i')
    → x ≡ g
    → Bears label c i x
    → Bears label c' i' g
Bears-same label {c} {i} {c'} {g} (e, e') same b =
    subst (λ j. Bears label c' j g) e'
      (subst (λ d. Bears label d i g) e (subst (λ y. Bears label c i y) same b))

stored_cases :
    (b : Bool) (x g : Hash) (o : Option Hash)
    → (if b then some x else o) ≡ some g
    → (b ≡ true) × (x ≡ g) ⊎ (o ≡ some g)
stored_cases true x g o e = inl (refl, ground (arith, e))
stored_cases false x g o e = inr e

moved_cases :
    (b d : Bool) (x g : Hash) (o : Option Hash)
    → (if b then some x else if d then none else o) ≡ some g
    → (b ≡ true) × (x ≡ g) ⊎ (o ≡ some g)
moved_cases true d x g o e = inl (refl, ground (arith, e))
moved_cases false true x g o e = absurd (ground (arith, e))
moved_cases false false x g o e = inr e

deleted_cases :
    (b : Bool) (g : Hash) (o : Option Hash) → (if b then none else o) ≡ some g → o ≡ some g
deleted_cases true g o e = absurd (ground (arith, e))
deleted_cases false g o e = e

module _ {S : Type 0} (api : RedisApi S) (reliable : IsReliable api) (label : Labels) where
  module _ (c i : Text) (hc : NoColon c) (hi : NoColon i) (s : S) where
    -- HSET that leaves the label of its key.
    pub hset-IsLabelled :
        (st : KeyState) (f : Fields)
        → Bears label c i (written f (view api s (key st c i)))
        → IsLabelled api label s
        → IsLabelled api label (api.hset (key st c i) f s).0
    unfolding stored
    hset-IsLabelled st f b l = record {
      bears = λ st' c' i' hc' hi' g e.
          elim (stored_cases (text_eq (key st c i) (key st' c' i')) _ g _
            (sym (view-hset api reliable (key st c i) f s (key st' c' i')) ∙ e)) [
              | inl (same, x) ↦
                  Bears-same label
                    (key-same_job st st' c i c' i' hc hi hc' hi'
                      (text_eq_sound (key st c i) (key st' c' i') same))
                    x b
              | inr there ↦ l.bears st' c' i' hc' hi' g there
            ];
    }

    -- RENAME within the keys of one job.
    pub set_redis_key-IsLabelled :
        (old new : KeyState)
        → IsLabelled api label s
        → IsLabelled api label (set_redis_key api c i old new s).0
    unfolding set_redis_key moved
    set_redis_key-IsLabelled old new l = elim (Option-cases (view api s (key old c i))) [
      | inl missing ↦ record {
        bears = λ st' c' i' hc' hi' g e. l.bears st' c' i' hc' hi' g (
            sym (reliable.rename_rejected (key old c i) (key new c i) s missing (key st' c' i'))
            ∙ e);
      }
      | inr (h, found) ↦ record {
        bears = λ st' c' i' hc' hi' g e.
            elim (moved_cases (text_eq (key new c i) (key st' c' i'))
              (text_eq (key old c i) (key st' c' i')) h g _
              (sym (view-rename api reliable (key old c i) (key new c i) s h (key st' c' i') found)
                ∙ e)) [
                  | inl (same, x) ↦
                      Bears-same label
                        (key-same_job new st' c i c' i' hc hi hc' hi'
                          (text_eq_sound (key new c i) (key st' c' i') same))
                        x (l.bears old c i hc hi h found)
                  | inr there ↦ l.bears st' c' i' hc' hi' g there
                ];
      }
    ]

  pub del-IsLabelled :
      (k : Text) (s : S) → IsLabelled api label s → IsLabelled api label (api.del k s).0
  del-IsLabelled k s l = record {
    bears = λ st c i hc hi g e. l.bears st c i hc hi g (
        deleted_cases (text_eq k (key st c i)) g _
          (sym (api.get-del k s (reliable.del_accepted k s) (key st c i)) ∙ e));
  }
