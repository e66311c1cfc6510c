-- ===== src/Registry.antt =====
-- api/queue.go: the name-keyed registry of handlers (`RegisterHandler`, `RegisterHandlerCtx`,
-- `hasRegisteredHandler`). The map is an association list; a nil map is the empty one.
pub mod Laws
use adele_queue.Base.{
  Bool, true, false, ◌||◌, List, [], ◌∷◌, Option, none, some, String, str_eq, if◌then◌else◌,
}
use adele_queue.Handler.{Handler, CtxHandler, RegisteredHandler}
use adele_queue.Queue.{Queue}

pub data RegisterError : Type 0 where
  empty_name : RegisterError
  nil_function already_registered : String → RegisterError

abbrev pub is_some {ℓ} : {A : Type ℓ} → Option A → Bool
is_some none = false
is_some (some a) = true

-- `m[name]`
unfoldable pub lookup {ℓ} : {A : Type ℓ} → String → List (String × A) → Option A
lookup name [] = none
lookup name ((n, r) ∷ m) = if str_eq n name then some r else lookup name m

-- `reg, ok := q.handlers.m[name]`, and whether the entry has a handler of either shape.
entry_runs : {W : Type 0} → Option (RegisteredHandler W) → Bool
entry_runs none = false
entry_runs (some r) = is_some r.plain || is_some r.ctx

unfoldable pub has_registered_handler : {W : Type 0} → Queue W → String → Bool
unfolding lookup entry_runs
has_registered_handler q name = entry_runs (lookup name q.handlers)

-- The insertion that the two methods share, behind their guards on the name and the function.
add_entry : {W : Type 0} → Queue W → String → RegisteredHandler W → Queue W × Option RegisterError
unfolding lookup
add_entry q name r =
    if is_some (lookup name q.handlers)
    then (q, some (already_registered name))
    else (record q { handlers = (name, r) ∷ q.handlers }, none)

unfoldable pub register_handler :
    {W : Type 0} → Queue W → String → Option (Handler W) → Queue W × Option RegisterError
unfolding add_entry
register_handler q name none =
    if str_eq name "" then (q, some empty_name) else (q, some (nil_function name))
register_handler q name (some fn) =
    if str_eq name ""
    then (q, some empty_name)
    else add_entry q name (record { plain = some fn; ctx = none })

unfoldable pub register_handler_ctx :
    {W : Type 0} → Queue W → String → Option (CtxHandler W) → Queue W × Option RegisterError
unfolding add_entry
register_handler_ctx q name none =
    if str_eq name "" then (q, some empty_name) else (q, some (nil_function name))
register_handler_ctx q name (some fn) =
    if str_eq name ""
    then (q, some empty_name)
    else add_entry q name (record { plain = none; ctx = some fn })
