-- ===== src/Handler.antt =====
-- Handlers of jobs: functions of the application, which act on a world of type `W` of their own.
-- api/types.go, `registeredHandler`.
use adele_queue.Base.{Bool, Option}
use adele_queue.Base.Text.{Text}

-- `[]byte`, which may be nil.
abbrev pub Bytes : Type 0
Bytes = Option Text

-- A call of a handler returns nil, returns an error, or panics.
pub data Outcome : Type 0 where
  succeeded : Outcome
  failed : Text → Outcome
  panicked : Text → Outcome

-- `func(payload interface{}) error`
abbrev pub Handler : Type 0 → Type 0
Handler W = Bytes → W → Outcome × W

-- `func(ctx context.Context, payload interface{}) error`; of the context a handler sees whether it
-- is cancelled.
abbrev pub CtxHandler : Type 0 → Type 0
CtxHandler W = Bool → Bytes → W → Outcome × W

pub record RegisteredHandler (W : Type 0) : Type 0 where
  pub plain : Option (Handler W)
  pub ctx : Option (CtxHandler W)
