-- ===== src/App/Api.antt =====
-- What an `axios` call of the app comes back with, and the reasons that the thunks make of a
-- failure. `axios` and Redux Toolkit are libraries: an answer is an argument of the thunks.
use pipeline_azure.Prelude.{
  String, ◌≡◌, true, Option, none, some, is_truthy, or_default, or_default-is_truthy,
}

-- The two texts that the handlers read: `error.response?.data?.message` and `error.message`.
pub record ApiError : Type 0 where
  pub response_message : Option String
  pub message : Option String

-- `error.response?.data?.message || error.message || fallback`
abbrev pub error_text : ApiError → String → String
error_text e fallback = or_default e.response_message (or_default e.message fallback)

pub error_text-is_truthy :
    (e : ApiError) (fallback : String)
    → is_truthy fallback ≡ true
    → is_truthy (error_text e fallback) ≡ true
error_text-is_truthy e fallback h =
    or_default-is_truthy e.response_message (or_default e.message fallback)
      (or_default-is_truthy e.message fallback h)

-- A rejected action: `action.payload` and `action.error.message`.
pub record Rejection : Type 0 where
  pub payload : Option String
  pub error_message : Option String

-- What Redux Toolkit dispatches after `rejectWithValue(value)`, and after an uncaught exception.
abbrev pub reject_with_value : String → Rejection
reject_with_value v = record { payload = some v; error_message = some "Rejected" }

abbrev pub uncaught : ApiError → Rejection
uncaught e = record { payload = none; error_message = e.message }

-- `(action.payload as string) || action.error.message || fallback`
abbrev pub rejection_text : Rejection → String → String
rejection_text r fallback = or_default r.payload (or_default r.error_message fallback)

pub rejection_text-is_truthy :
    (r : Rejection) (fallback : String)
    → is_truthy fallback ≡ true
    → is_truthy (rejection_text r fallback) ≡ true
rejection_text-is_truthy r fallback h =
    or_default-is_truthy r.payload (or_default r.error_message fallback)
      (or_default-is_truthy r.error_message fallback h)
