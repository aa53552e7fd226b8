-- ===== src/App/Biometrics/Device.antt =====
-- src/Presentation/App/src/presentation/shared/hooks/useBiometrics.ts
-- The hook that asks `expo-local-authentication` itself. Its answers are a `Phone`, and the texts
-- that `Alert.alert` shows are kept by their titles, oldest first.
use pipeline_azure.Prelude.{
  ℕ, Bool, true, false, not, ◌&&◌, ◌||◌, Option, none, some, String, List, [], ◌∷◌, Result, ok,
  throw, nat_eq, string_eq, ◌==◌, some_by, if◌then◌else◌,
}
use pipeline_azure.App.Biometrics.{Thrown, AuthenticationTypes}

-- `{ success: true }` or `{ success: false, error }`.
pub data Outcome : Type 0 where
  accepted : Outcome
  refused : String → Outcome

pub record Phone : Type 0 where
  pub has_hardware_async : Result Thrown Bool
  pub is_enrolled_async : Result Thrown Bool
  pub supported_authentication_types_async : Result Thrown (List ℕ)
  pub authenticate_async : Result Thrown Outcome

pub record Biometrics : Type 0 where
  pub is_compatible : Bool
  pub is_enrolled : Bool
  pub biometric_type : Option ℕ

abbrev pub mounted : Biometrics
mounted = record { is_compatible = false; is_enrolled = false; biometric_type = none }

-- `types[0] ?? null`
abbrev first_of : List ℕ → Option ℕ
first_of [] = none
first_of (t ∷ types) = some t

unfoldable pub resolve_biometric_type : AuthenticationTypes → List ℕ → Option ℕ
resolve_biometric_type c types =
    if some_by (λ t. t == c.facial_recognition) types
    then some c.facial_recognition
    else first_of types

-- `if (types.length > 0) setBiometricType(…)`
abbrev pub with_types : AuthenticationTypes → Result Thrown (List ℕ) → Biometrics → Biometrics
with_types c (throw e) b = b
with_types c (ok []) b = b
with_types c (ok (t ∷ types)) b = record b { biometric_type = resolve_biometric_type c (t ∷ types) }

abbrev pub with_enrolled :
    AuthenticationTypes → Phone → Result Thrown Bool → Biometrics → Biometrics
with_enrolled c p (throw e) b = b
with_enrolled c p (ok enrolled) b =
    with_types c p.supported_authentication_types_async (record b { is_enrolled = enrolled })

abbrev pub with_hardware :
    AuthenticationTypes → Phone → Result Thrown Bool → Biometrics → Biometrics
with_hardware c p (throw e) b = b
with_hardware c p (ok false) b = record b { is_compatible = false }
with_hardware c p (ok true) b =
    with_enrolled c p p.is_enrolled_async (record b { is_compatible = true })

unfoldable pub check_device_compatibility : AuthenticationTypes → Phone → Biometrics → Biometrics
check_device_compatibility c p b = with_hardware c p p.has_hardware_async b

abbrev pub is_available : Biometrics → Bool
is_available b = b.is_compatible && b.is_enrolled

-- The titles that an answer of the phone shows, and what the caller gets.
abbrev pub from_answer : Result Thrown Outcome → Bool × List String
from_answer (ok accepted) = (true, [])
from_answer (ok (refused e)) =
    (false, if e == "user_cancel" then [] else "Authentication Failed" ∷ [])
from_answer (throw e) = (false, "Error" ∷ [])

unfoldable pub authenticate : Phone → Biometrics → Bool × List String
authenticate p b =
    if not b.is_compatible || not b.is_enrolled
    then (false, "Biometrics Unavailable" ∷ [])
    else from_answer p.authenticate_async

-- `biometricType === FACIAL_RECOGNITION`
abbrev is_facial : AuthenticationTypes → Option ℕ → Bool
is_facial c none = false
is_facial c (some t) = t == c.facial_recognition

unfoldable biometric_name : AuthenticationTypes → Bool → Biometrics → String
biometric_name c is_ios b =
    if is_facial c b.biometric_type
    then if is_ios then "Face ID" else "Face Unlock"
    else if is_ios
    then "Touch ID"
    else "Fingerprint"
