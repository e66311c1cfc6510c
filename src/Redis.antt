-- ===== src/Redis.antt =====
-- The redis server behind `redis.Conn` (github.com/gomodule/redigo), an interface with the commands
-- that the queue sends, and the two helpers of api/redis.go that send them.
pub mod View
pub mod Handle
pub mod Scan
pub mod Visits
pub mod Steps
use mathlib.Core.Option
use adele_queue.Base.{
  ℕ, Bool, true, false, List, Option, none, some, String, ◌≡◌, ◌≢◌, if◌then◌else◌,
}
use adele_queue.Base.Text.{Text, text_eq}
use adele_queue.Time.{Stamp}
use adele_queue.Job.{Job, Hash, zero_hash, add_flat, scan_struct}
use adele_queue.Key.{KeyState, locked, key}

-- An error of a command, by whether its text contains "no such key".
pub data RedisError : Type 0 where
  no_such_key refused : RedisError

pub data Reply (A : Type 0) : Type 0 where
  value : A → Reply A
  error : RedisError → Reply A

-- The fields that one HSET writes: all those of a job, or one.
pub data Fields : Type 0 where
  all_fields : Hash → Fields
  locked_at_field : Stamp → Fields
  status_field : String → Fields

abbrev pub write : Fields → Hash → Hash
write (all_fields f) h = f
write (locked_at_field t) h = record h { locked_at = t }
write (status_field s) h = record h { status = s }

-- HSET creates a hash that is missing, with the fields given.
abbrev pub written : Fields → Option Hash → Hash
written f none = write f zero_hash
written f (some h) = write f h

-- HGETALL of a missing key is the empty reply, which `ScanStruct` reads as zero values.
abbrev pub or_zero : Option Hash → Hash
or_zero none = zero_hash
or_zero (some h) = h

abbrev pub holds {ℓ} : {A : Type ℓ} → Option A → Bool
holds none = false
holds (some a) = true

-- The MATCH patterns of SCAN: "queues:*:pending*", "queues:*:locked:*",
-- "queues:<channel>:pending:*".
pub data Match : Type 0 where
  any_pending any_locked : Match
  pending_of : Text → Match

-- A reply to SCAN: an error, a reply of another shape, or a cursor and a page of keys. The cursor
-- is a bulk string that holds a number, or `none`.
pub data ScanReply : Type 0 where
  scan_error scan_malformed : ScanReply
  scan_page : Option ℕ → List Text → ScanReply

-- A server in the states `S`; `get` is the hash that a key holds. What a command that succeeds does
-- is redis's documentation of it; of one that returns an error nothing is assumed.
pub record RedisApi (S : Type 0) : Type 0 where
  pub get : Text → S → Option Hash
  pub hset : Text → Fields → S → S × Option RedisError
  pub rename : Text → Text → S → S × Option RedisError
  pub del : Text → S → S × Option RedisError
  pub hgetall : Text → S → Reply Hash
  pub exists : Text → S → Reply Bool
  pub scan : Match → ℕ → S → ScanReply
  pub get-hset :
      (k : Text) (f : Fields) (s : S)
      → (hset k f s).1 ≡ none
      → (j : Text)
      → get j (hset k f s).0 ≡ (if text_eq k j then some (written f (get k s)) else get j s)
  pub get-rename :
      (a b : Text) (s : S) (h : Hash)
      → (rename a b s).1 ≡ none
      → get a s ≡ some h
      → (j : Text)
      → get j (rename a b s).0
        ≡ (if text_eq b j then some h else if text_eq a j then none else get j s)
  pub rename_missing : (a b : Text) (s : S) → get a s ≡ none → (rename a b s).1 ≢ none
  pub get-del :
      (k : Text) (s : S)
      → (del k s).1 ≡ none
      → (j : Text) → get j (del k s).0 ≡ (if text_eq k j then none else get j s)
  pub hgetall_lem : (k : Text) (s : S) {h : Hash} → hgetall k s ≡ value h → h ≡ or_zero (get k s)
  pub exists_lem : (k : Text) (s : S) {b : Bool} → exists k s ≡ value b → b ≡ holds (get k s)

-- A server that carries out every command, but for RENAME of a key that is missing, which changes
-- nothing.
pub record IsReliable {S : Type 0} (api : RedisApi S) : Type 0 where
  pub hset_accepted : (k : Text) (f : Fields) (s : S) → (api.hset k f s).1 ≡ none
  pub rename_accepted :
      (a b : Text) (s : S) (h : Hash) → api.get a s ≡ some h → (api.rename a b s).1 ≡ none
  pub rename_rejected :
      (a b : Text) (s : S)
      → api.get a s ≡ none
      → (j : Text) → api.get j (api.rename a b s).0 ≡ api.get j s
  pub del_accepted : (k : Text) (s : S) → (api.del k s).1 ≡ none
  pub hgetall_accepted : (k : Text) (s : S) → api.hgetall k s ≡ value (or_zero (api.get k s))
  pub exists_accepted : (k : Text) (s : S) → api.exists k s ≡ value (holds (api.get k s))

-- What a process changes outside itself: the server, the world of the handlers, the database.
pub record Node (S W D : Type 0) : Type 0 where
  pub server : S
  pub world : W
  pub db : D

abbrev map_reply : {A B : Type 0} → (A → B) → Reply A → Reply B
map_reply f (value a) = value (f a)
map_reply f (error e) = error e

module _ {S : Type 0} (api : RedisApi S) where
  -- The connection is not nil and the formats are the four constants, which are not empty.
  unfoldable pub set_redis_key : Text → Text → KeyState → KeyState → S → S × Option RedisError
  set_redis_key queue id old new s = api.rename (key old queue id) (key new queue id) s

  unfoldable pub get_redis_value : {W : Type 0} → Text → Text → KeyState → S → Reply (Job W)
  get_redis_value queue id st s = map_reply scan_struct (api.hgetall (key st queue id) s)

  -- HSET of the whole job on its locked key, then RENAME; the error of the first that fails.
  unfoldable pub move_job :
      {W : Type 0} → Text → Text → KeyState → Job W → S → S × Option RedisError
  move_job queue id new job s =
      let (s', e) = api.hset (key locked queue id) (all_fields (add_flat job)) s in
      elim e [ some x ↦ (s', some x) | none ↦ set_redis_key queue id locked new s' ]
