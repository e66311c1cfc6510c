-- ===== src/Key.antt =====
-- api/redis.go: the keys of the redis backend, how the scanners take them apart, and
-- `RedisKeyspaceFormater`.
pub mod Split
pub mod Channel
pub mod Distinct
use adele_queue.Base.{
  ℕ, ◌+◌, ◌≤◌, ◌≡◌, ◌≢◌, ◌&&◌, List, [], ◌∷◌, ◌++◌, Option, none, some, ltb, leb, ◌==◌,
  if◌then◌else◌,
}
use adele_queue.Base.Text.{Text, codes}

-- `formatPending`, `formatLocked`, `formatComplete` and `formatFailed`.
pub data KeyState : Type 0 where
  pending locked complete failed : KeyState

abbrev pub state_text : KeyState → Text
state_text pending = codes "pending"
state_text locked = codes "locked"
state_text complete = codes "completed"
state_text failed = codes "failed"

-- `fmt.Sprintf(format, queue, id)`: "queues:", the queue, ":", the state, ":" and the id.
unfoldable pub key : KeyState → Text → Text → Text
key st queue id = codes "queues" ++ b':' ∷ queue ++ b':' ∷ state_text st ++ b':' ∷ id

put_first : ℕ → List Text → List Text
put_first c [] = (c ∷ []) ∷ []
put_first c (w ∷ ws) = (c ∷ w) ∷ ws

-- `strings.Split(s, ":")`
unfoldable pub split : Text → List Text
unfolding put_first
split [] = [] ∷ []
split (c ∷ s) = let rest = split s in if c == b':' then [] ∷ rest else put_first c rest

-- `keyParts[len(keyParts)-3]` and `keyParts[len(keyParts)-1]`; `none` is an index out of range.
unfoldable pub ends : List Text → Option (Text × Text)
ends (a ∷ b ∷ c ∷ []) = some (a, c)
ends (a ∷ b ∷ c ∷ d ∷ r) = ends (b ∷ c ∷ d ∷ r)
ends _ = none

-- The queue and the id that a scanner reads from a key.
unfoldable pub read_key : Text → Option (Text × Text)
unfolding split ends
read_key k = ends (split k)

-- A rune in lower case; `lower` is Unicode's table beyond ASCII.
unfoldable pub to_lower : (ℕ → ℕ) → ℕ → ℕ
to_lower lower c = if ltb c 128 then (if leb b'A' c && leb c b'Z' then c + 32 else c) else lower c

-- What the formatter relies on of the Unicode table: its results are in lower case, and are none of
-- the characters that the formatter replaces.
pub record IsLowerTable (lower : ℕ → ℕ) : Type 0 where
  pub stable : (c : ℕ) → 128 ≤ c → to_lower lower (lower c) ≡ lower c
  pub no_mark : (c : ℕ) → 128 ≤ c → (lower c ≢ b':') × (lower c ≢ b' ') × (lower c ≢ b',')

module _ (lower : ℕ → ℕ) where
  -- `strings.NewReplacer(":", "", " ", "-", ",", "")`, then `strings.ToLower`.
  unfoldable pub redis_keyspace_formater : Text → Text
  unfolding to_lower
  redis_keyspace_formater [] = []
  redis_keyspace_formater (c ∷ s) =
      let rest = redis_keyspace_formater s in
      if c == b':'
      then rest
      else if c == b' '
      then b'-' ∷ rest
      else if c == b','
      then rest
      else to_lower lower c ∷ rest
