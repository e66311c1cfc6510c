-- ===== src/Key/Split.antt =====
-- What the scanners of api/redis.go and api/reaper.go read from the keys that `Dispatch` writes.
use mathlib.Core.List.{append_assoc}
use adele_queue.Base.{
  ◌≡◌, ◌≢◌, refl, arith, List, [], ◌∷◌, ◌++◌, some, All, Bool-cases, inl, inr, ◌==◌,
}
use adele_queue.Base.Text.{Text, codes}
use adele_queue.Key.{
  KeyState, pending, locked, complete, failed, state_text, key, put_first, split, ends, read_key,
}

-- A text that `strings.Split` leaves in one piece.
abbrev pub NoColon : Text → Type 0
NoColon = All (λ c. c ≢ b':')

pub split-cons : (s : Text) → (w : Text) × (ws : List Text) × (split s ≡ w ∷ ws)
unfolding split
split-cons [] = ([], [], refl)
split-cons (c ∷ s) = elim (Bool-cases (c == b':')) [
  | inl colon ↦ ([], split s, rw colon)
  | inr other ↦ let (w, ws, e) = split-cons s in (c ∷ w, ws, rw other (rw (e, put_first)))
]

-- Splitting at a colon splits the two sides.
split-append_colon : (s t : Text) → split (s ++ b':' ∷ t) ≡ split s ++ split t
unfolding split
split-append_colon [] t = refl
split-append_colon (c ∷ s) t = elim (Bool-cases (c == b':')) [
  | inl colon ↦ rw colon (rw (split-append_colon s t))
  | inr other ↦
      let (w, ws, e) = split-cons s in rw other (rw (split-append_colon s t, e, put_first))
]

split_of_NoColon : (s : Text) → NoColon s → split s ≡ s ∷ []
unfolding split
split_of_NoColon [] h = refl
split_of_NoColon (c ∷ s) h = ground (arith, split_of_NoColon s h.1)

ends_last : (xs : List Text) (a b c : Text) → ends (xs ++ a ∷ b ∷ c ∷ []) ≡ some (a, c)
unfolding ends
ends_last [] a b c = refl
ends_last (x ∷ []) a b c = refl
ends_last (x ∷ y ∷ []) a b c = refl
ends_last (x ∷ y ∷ z ∷ []) a b c = refl
ends_last (x ∷ y ∷ z ∷ w ∷ xs) a b c = ends_last (y ∷ z ∷ w ∷ xs) a b c

state_text-split : (st : KeyState) → split (state_text st) ≡ state_text st ∷ []
unfolding split
state_text-split pending = refl
state_text-split locked = refl
state_text-split complete = refl
state_text-split failed = refl

-- Behind any first part, a key that ends in queue, state and id is read as that queue and id.
read_last :
    (first queue : Text) (st : KeyState) (id : Text)
    → NoColon queue
    → NoColon id
    → read_key (first ++ b':' ∷ queue ++ b':' ∷ state_text st ++ b':' ∷ id) ≡ some (queue, id)
unfolding read_key
read_last first queue st id hq hid =
    rw
      (
        split-append_colon ((first ++ b':' ∷ queue) ++ b':' ∷ state_text st) id,
        split-append_colon (first ++ b':' ∷ queue) (state_text st),
        split-append_colon first queue,
        split_of_NoColon queue hq,
        split_of_NoColon id hid,
        state_text-split st,
        append_assoc (split first ++ queue ∷ []) (state_text st ∷ []) (id ∷ []),
        append_assoc (split first) (queue ∷ []) (state_text st ∷ id ∷ []),
      )
      (ends_last (split first) queue (state_text st) id)

-- The scanners read the queue and the id of a key back, if neither holds a colon.
pub read_key-key :
    (st : KeyState) (queue id : Text)
    → NoColon queue
    → NoColon id
    → read_key (key st queue id) ≡ some (queue, id)
unfolding key
read_key-key st queue id hq hid = read_last (codes "queues") queue st id hq hid

-- The four parts of a key.
pub split-key :
    (st : KeyState) (queue id : Text)
    → NoColon queue
    → NoColon id
    → split (key st queue id) ≡ codes "queues" ∷ queue ∷ state_text st ∷ id ∷ []
unfolding key
split-key st queue id hq hid =
    rw
      (
        split-append_colon ((codes "queues" ++ b':' ∷ queue) ++ b':' ∷ state_text st) id,
        split-append_colon (codes "queues" ++ b':' ∷ queue) (state_text st),
        split-append_colon (codes "queues") queue,
        split_of_NoColon (codes "queues") (ground arith),
        split_of_NoColon queue hq,
        split_of_NoColon id hid,
        state_text-split st,
      )
      refl

-- Of a queue whose name holds a colon they read what stands behind the last one.
pub read_key-key_colon :
    (st : KeyState) (first queue id : Text)
    → NoColon queue
    → NoColon id
    → read_key (key st (first ++ b':' ∷ queue) id) ≡ some (queue, id)
unfolding key
read_key-key_colon st first queue id hq hid =
    read_last (codes "queues" ++ b':' ∷ first) queue st id hq hid
