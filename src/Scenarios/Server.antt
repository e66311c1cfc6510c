-- ===== src/Scenarios/Server.antt =====
-- A sample redis server: a keyspace whose SCAN gives two pages of one key each.
use adele_queue.Base.{
  ℕ, zero, suc, ◌≡◌, ◌≢◌, refl, ap, arith, [], ◌∷◌, Option, none, some, if◌then◌else◌,
}
use adele_queue.Base.Text.{Text, text_eq, codes}
use adele_queue.Job.{Hash}
use adele_queue.Key.{KeyState, pending, locked, key, to_lower, IsLowerTable}
use adele_queue.Redis.{
  RedisApi, IsReliable, RedisError, no_such_key, Fields, written, or_zero, holds, value, ScanReply,
  scan_page, Match, any_pending, any_locked, pending_of,
}
use adele_queue.Redis.View.{Keyspace}
use adele_queue.Reaper.Tick.{CountsDown}
use adele_queue.Scenarios.World.{channel}

abbrev pub set : Text → Fields → Keyspace → Keyspace × Option RedisError
set k f s = ((λ j. if text_eq k j then some (written f (s k)) else s j), none)

abbrev pub renamed : Text → Text → Option Hash → Keyspace → Keyspace × Option RedisError
renamed a b none s = (s, some no_such_key)
renamed a b (some h) s =
    ((λ j. if text_eq b j then some h else if text_eq a j then none else s j), none)

abbrev pub delete : Text → Keyspace → Keyspace × Option RedisError
delete k s = ((λ j. if text_eq k j then none else s j), none)

abbrev pub scanned_state : Match → KeyState
scanned_state any_pending = pending
scanned_state any_locked = locked
scanned_state (pending_of c) = pending

abbrev pub pages : KeyState → ℕ → ScanReply
pages st zero = scan_page (some 1) (key st channel (codes "7") ∷ [])
pages st (suc c) = scan_page (some 0) (key st channel (codes "8") ∷ [])

pub renamed-get :
    (a b : Text) (s : Keyspace) (h : Hash)
    → s a ≡ some h
    → (j : Text)
    → (renamed a b (s a) s).0 j
      ≡ (if text_eq b j then some h else if text_eq a j then none else s j)
renamed-get a b s h held j = rw held refl

pub renamed_missing : (a b : Text) (s : Keyspace) → s a ≡ none → (renamed a b (s a) s).1 ≢ none
renamed_missing a b s e = rw e (ground arith)

pub value_injective : {A : Type 0} {a b : A} → value a ≡ value b → b ≡ a
value_injective e = ground (arith, e)

abbrev pub server : RedisApi Keyspace
server = record {
  get = λ k s. s k;
  hset = set;
  rename = λ a b s. renamed a b (s a) s;
  del = delete;
  hgetall = λ k s. value (or_zero (s k));
  exists = λ k s. value (holds (s k));
  scan = λ m cursor s. pages (scanned_state m) cursor;
  get-hset = λ k f s e j. refl;
  get-rename = λ a b s h e held j. renamed-get a b s h held j;
  rename_missing = renamed_missing;
  get-del = λ k s e j. refl;
  hgetall_lem = λ k s e. value_injective e;
  exists_lem = λ k s e. value_injective e;
}

pub server-IsReliable : IsReliable server
server-IsReliable = record {
  hset_accepted = λ k f s. refl;
  rename_accepted = λ a b s h e. ap (λ o. (renamed a b o s).1) e;
  rename_rejected = λ a b s e j. ap (λ o. (renamed a b o s).0 j) e;
  del_accepted = λ k s. refl;
  hgetall_accepted = λ k s. refl;
  exists_accepted = λ k s. refl;
}

-- The cursors of the sample server: 0, and then 1.
abbrev pub rank : ℕ → ℕ
rank zero = 1
rank (suc c) = 0

pub server-CountsDown : CountsDown server rank
server-CountsDown zero next ks s e = ground arith
server-CountsDown (suc c) next ks s e = ground (arith, e)

-- A table of lower case for texts in ASCII.
abbrev pub lower : ℕ → ℕ
lower c = c

pub lower-IsLowerTable : IsLowerTable lower
unfolding to_lower
lower-IsLowerTable = record { stable = λ c h. ground arith; no_mark = λ c h. ground arith }
