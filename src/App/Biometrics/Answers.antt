-- ===== src/App/Biometrics/Answers.antt =====
-- BiometricAuthService: what its two ways to authenticate answer.
use pipeline_azure.Prelude.{
  ℕ, ◌≡◌, refl, Bool, true, false, not, ◌&&◌, ◌||◌, Option, none, some, String, List, Result, ok,
  throw, if◌then◌else◌, arith,
}
use pipeline_azure.App.Biometrics.{
  Thrown, Options, LocalAuthentication, BiometricAuthResult, check_availability, from_result,
  from_answers, refused, authenticate, shopping_prompt, authenticate_with_options, prompt_of,
}

-- The library answered, and with yes.
abbrev pub says_yes : Result Thrown Bool → Bool
says_yes (ok b) = b
says_yes (throw e) = false

abbrev pub answers {ℓ} : {A : Type ℓ} → Result Thrown A → Bool
answers (ok a) = true
answers (throw e) = false

-- The phone can ask, and every question about it is answered.
unfoldable pub can_ask : LocalAuthentication → Bool
can_ask m =
    says_yes m.has_hardware_async
    && says_yes m.is_enrolled_async
    && answers m.supported_authentication_types_async

abbrev pub is_none {ℓ} : {A : Type ℓ} → Option A → Bool
is_none none = true
is_none (some a) = false

pub from_answers-can_ask :
    (h e : Result Thrown Bool) (t : Result Thrown (Option (List ℕ)))
    → (not (not (from_answers h e t).has_hardware || not (from_answers h e t).is_enrolled))
      ≡ (says_yes h && says_yes e && answers t)
from_answers-can_ask (ok true) (ok true) (ok t) = refl
from_answers-can_ask (ok true) (ok true) (throw x) = refl
from_answers-can_ask (ok true) (ok false) t = refl
from_answers-can_ask (ok true) (throw x) t = refl
from_answers-can_ask (ok false) (ok e) t = refl
from_answers-can_ask (ok false) (throw x) t = refl
from_answers-can_ask (throw x) e t = refl

-- An answer with this success, and with an error just if it is none.
abbrev pub Agrees : BiometricAuthResult → Bool → Type 0
Agrees r b = (r.success ≡ b) × (is_none r.error_message ≡ b)

from_result-Agrees :
    (r : Result Thrown Bool) (t : Option ℕ) (fallback : String)
    → Agrees (from_result r t fallback) (says_yes r)
from_result-Agrees (ok true) t fallback = (refl, refl)
from_result-Agrees (ok false) t fallback = (refl, refl)
from_result-Agrees (throw e) t fallback = (refl, refl)

gate-Agrees :
    (b asks : Bool) (text : String) (t : Option ℕ) (r : Result Thrown Bool) (fallback : String)
    → not b ≡ asks
    → Agrees (if b then refused text t else from_result r t fallback) (asks && says_yes r)
gate-Agrees true true text t r fallback h = absurd (ground arith)
gate-Agrees true false text t r fallback h = (refl, refl)
gate-Agrees false true text t r fallback h = from_result-Agrees r t fallback
gate-Agrees false false text t r fallback h = absurd (ground arith)

-- An authentication succeeds just if the phone has the hardware, somebody is enrolled, the types are
-- told, and the library accepts the user; it never throws, and has an error just if it fails.
pub authenticate-Agrees :
    (m : LocalAuthentication)
    → Agrees (authenticate m) (can_ask m && says_yes (m.authenticate_async shopping_prompt))
unfolding authenticate check_availability can_ask
authenticate-Agrees m =
    gate-Agrees _ _ _ _ (m.authenticate_async shopping_prompt) "Unknown authentication error" (
      from_answers-can_ask m.has_hardware_async m.is_enrolled_async
        m.supported_authentication_types_async)

-- The same with the caller's options: missing or blank ones have their defaults.
pub authenticate_with_options-Agrees :
    (m : LocalAuthentication) (o : Options)
    → Agrees
        (authenticate_with_options m o)
        (can_ask m && says_yes (m.authenticate_async (prompt_of o)))
unfolding authenticate_with_options check_availability can_ask
authenticate_with_options-Agrees m o =
    gate-Agrees _ _ _ _ (m.authenticate_async (prompt_of o)) "Unknown error" (
      from_answers-can_ask m.has_hardware_async m.is_enrolled_async
        m.supported_authentication_types_async)
