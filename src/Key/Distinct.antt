-- ===== src/Key/Distinct.antt =====
-- When two keys of api/redis.go are the same.
use mathlib.Core.Path.{subst}
use mathlib.Core.Option.{some-injective}
use adele_queue.Base.{
  ℕ, ◌≡◌, ◌≢◌, refl, sym, ◌∙◌, ap, arith, false, List, [], ◌∷◌, ◌++◌, some, All, Bool-cases, inl,
  inr, ◌==◌,
}
use adele_queue.Base.Text.{Text, text_eq, codes}
use adele_queue.Key.{
  KeyState, pending, locked, complete, failed, key, put_first, split, ends, read_key,
}
use adele_queue.Key.Split.{NoColon, read_key-key, split-cons}

module _ (st st' : KeyState) (queue id queue' id' : Text) where
  -- Two keys without colons in their parts are of the same job where they are equal.
  pub key-same_job :
      NoColon queue
      → NoColon id
      → NoColon queue'
      → NoColon id'
      → key st queue id ≡ key st' queue' id'
      → (queue ≡ queue') × (id ≡ id')
  key-same_job hq hid hq' hid' e =
      let pair : Text × Text = (queue, id) in
      let pair' : Text × Text = (queue', id') in
      let p = some-injective pair pair' (
        sym (read_key-key st queue id hq hid)
        ∙ ap read_key e
        ∙ read_key-key st' queue' id' hq' hid') in
      (ap (λ (x : Text × Text). x.0) p, ap (λ (x : Text × Text). x.1) p)

text_eq-prefix :
    (a s t u v : Text) → text_eq (a ++ s ++ u) (a ++ t ++ v) ≡ text_eq (s ++ u) (t ++ v)
unfolding text_eq
text_eq-prefix [] s t u v = refl
text_eq-prefix (c ∷ a) s t u v = ground (arith, text_eq-prefix a s t u v)

-- Keys of different states are different, whatever their ids are.
module _ (queue id id' : Text) where
  pub text_eq-locked_pending : text_eq (key locked queue id) (key pending queue id') ≡ false
  unfolding key text_eq
  text_eq-locked_pending =
      text_eq-prefix queue (b':' ∷ codes "locked") (b':' ∷ codes "pending") (b':' ∷ id) (b':' ∷ id')

  pub text_eq-complete_pending : text_eq (key complete queue id) (key pending queue id') ≡ false
  unfolding key text_eq
  text_eq-complete_pending =
      text_eq-prefix queue (b':' ∷ codes "completed") (b':' ∷ codes "pending") (b':' ∷ id)
        (b':' ∷ id')

  pub text_eq-failed_pending : text_eq (key failed queue id) (key pending queue id') ≡ false
  unfolding key text_eq
  text_eq-failed_pending =
      text_eq-prefix queue (b':' ∷ codes "failed") (b':' ∷ codes "pending") (b':' ∷ id) (b':' ∷ id')

colon_free : (c : ℕ) → (c == b':') ≡ false → c ≢ b':'
colon_free c h = ground (arith, h)

-- Every part of a split text is without a colon.
All-split : (s : Text) → All NoColon (split s)
unfolding split
All-split [] = (tt, tt)
All-split (c ∷ s) = elim (Bool-cases (c == b':')) [
  | inl colon ↦ rw colon (tt, All-split s)
  | inr other ↦
      let (w, ws, e) = split-cons s in
      let rest = subst (All NoColon) e (All-split s) in
      rw other (rw (e, put_first) ((colon_free c other, rest.0), rest.1))
]

ends-NoColon :
    (ws : List Text) (a b : Text) → All NoColon ws → ends ws ≡ some (a, b) → NoColon a × NoColon b
unfolding ends
ends-NoColon [] a b h e = ground (arith, e)
ends-NoColon (x ∷ []) a b h e = ground (arith, e)
ends-NoColon (x ∷ y ∷ []) a b h e = ground (arith, e)
ends-NoColon (x ∷ y ∷ z ∷ []) a b h e =
    let pair : Text × Text = (x, z) in
    let pair' : Text × Text = (a, b) in
    let p = some-injective pair pair' e in
    (
      subst NoColon (ap (λ (v : Text × Text). v.0) p) h.0,
      subst NoColon (ap (λ (v : Text × Text). v.1) p) h.1.1.0,
    )
ends-NoColon (x ∷ y ∷ z ∷ w ∷ ws) a b h e = ends-NoColon (y ∷ z ∷ w ∷ ws) a b h.1 e

-- The parts that the scanners read from a key are without colons.
pub read_key-NoColon :
    (k queue id : Text) → read_key k ≡ some (queue, id) → NoColon queue × NoColon id
unfolding read_key
read_key-NoColon k queue id e = ends-NoColon (split k) queue id (All-split k) e
