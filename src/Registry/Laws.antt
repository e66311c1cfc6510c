-- ===== src/Registry/Laws.antt =====
-- The registry of api/queue.go stays a single source of truth: one handler for each name.
use adele_queue.Base.{
  ◌≡◌, ◌≢◌, ◌⊎◌, ◌↔◌, arith, Bool, true, false, List, [], ◌∷◌, Option, none, some, String, str_eq,
  eq_iff, if◌then◌else◌,
}
use adele_queue.Handler.{Handler, CtxHandler, RegisteredHandler}
use adele_queue.Queue.{Queue}
use adele_queue.Registry.{
  RegisterError, is_some, lookup, has_registered_handler, register_handler, register_handler_ctx,
}

-- Exactly one of the two shapes is set.
abbrev pub HasOneShape : {W : Type 0} → RegisteredHandler W → Type 0
HasOneShape r =
    (is_some r.plain ≡ true) × (is_some r.ctx ≡ false)
    ⊎ (is_some r.plain ≡ false) × (is_some r.ctx ≡ true)

-- No name is empty or stands twice, and each entry has one shape.
abbrev pub IsRegistry : {W : Type 0} → List (String × RegisteredHandler W) → Type 0
IsRegistry [] = Unit
IsRegistry ((n, r) ∷ m) = (n ≢ "") × (lookup n m ≡ none) × HasOneShape r × IsRegistry m

-- Either method, as the shape that it would enter.
pub data Request (W : Type 0) : Type 0 where
  plain_request : Option (Handler W) → Request W
  ctx_request : Option (CtxHandler W) → Request W

abbrev pub register : {W : Type 0} → Queue W → String → Request W → Queue W × Option RegisterError
register q name (plain_request f) = register_handler q name f
register q name (ctx_request f) = register_handler_ctx q name f

abbrev pub is_nil : {W : Type 0} → Request W → Bool
is_nil (plain_request none) = true
is_nil (plain_request (some f)) = false
is_nil (ctx_request none) = true
is_nil (ctx_request (some f)) = false

abbrev pub entry_of : {W : Type 0} → Request W → RegisteredHandler W
entry_of (plain_request f) = record { plain = f; ctx = none }
entry_of (ctx_request f) = record { plain = none; ctx = f }

module _ {W : Type 0} (q : Queue W) (name : String) where
  -- Registration by either method keeps the registry's invariant.
  pub register-IsRegistry :
      (r : Request W) → IsRegistry q.handlers → IsRegistry (register q name r).0.handlers
  unfolding register_handler register_handler_ctx
  register-IsRegistry (plain_request none) h = ground arith
  register-IsRegistry (plain_request (some f)) h = ground (arith, eq_iff name "")
  register-IsRegistry (ctx_request none) h = ground arith
  register-IsRegistry (ctx_request (some f)) h = ground (arith, eq_iff name "")

  -- Registration succeeds exactly when the name is not empty, the function is not nil and the name
  -- has no entry of either shape. Then it adds the one entry, and every other name keeps its own;
  -- otherwise the queue is unchanged.
  pub register_lem :
      (r : Request W)
      → (((register q name r).1 ≡ none)
          ↔ ((name ≢ "") × (is_nil r ≡ false) × (lookup name q.handlers ≡ none)))
        × ((register q name r).1 ≡ none
            → (n : String)
            → lookup n (register q name r).0.handlers
              ≡ (if str_eq name n then some (entry_of r) else lookup n q.handlers))
        × ((register q name r).1 ≢ none → (register q name r).0 ≡ q)
  unfolding register_handler register_handler_ctx
  register_lem (plain_request none) = ground (arith, eq_iff name "")
  register_lem (plain_request (some f)) = ground (arith, eq_iff name "")
  register_lem (ctx_request none) = ground (arith, eq_iff name "")
  register_lem (ctx_request (some f)) = ground (arith, eq_iff name "")

  -- A name that was registered is admitted by the memory worker.
  pub has_registered_handler_of_register :
      (r : Request W)
      → (register q name r).1 ≡ none
      → has_registered_handler (register q name r).0 name ≡ true
  unfolding has_registered_handler register_handler register_handler_ctx
  has_registered_handler_of_register (plain_request none) h = ground arith
  has_registered_handler_of_register (plain_request (some f)) h = ground (arith, eq_iff name name)
  has_registered_handler_of_register (ctx_request none) h = ground arith
  has_registered_handler_of_register (ctx_request (some f)) h = ground (arith, eq_iff name name)
