-- ===== src/App/Biometrics.antt =====
-- src/Presentation/App/src/infrastructure/services/BiometricAuthService.ts
-- `expo-local-authentication` is not in the repository: a `LocalAuthentication` holds its answers.
pub mod Answers
pub mod Hook
pub mod Checked
pub mod Device
pub mod Same
mod Tests
use pipeline_azure.Prelude.{
  ℕ, Bool, true, false, not, ◌&&◌, ◌||◌, Option, none, some, String, List, [], ◌∷◌, Result, ok,
  throw, nat_eq, ◌==◌, or_default, if◌then◌else◌,
}

-- What was thrown: an `Error` with its message, or another value.
pub data Thrown : Type 0 where
  error : String → Thrown
  other_value : Thrown

pub record Prompt : Type 0 where
  pub prompt_message : String
  pub fallback_label : String
  pub disable_device_fallback : Bool

pub record Options : Type 0 where
  pub prompt_message : Option String
  pub fallback_label : Option String
  pub disable_device_fallback : Option Bool

pub record LocalAuthentication : Type 0 where
  pub has_hardware_async : Result Thrown Bool
  pub is_enrolled_async : Result Thrown Bool
  pub supported_authentication_types_async : Result Thrown (Option (List ℕ))
  pub authenticate_async : Prompt → Result Thrown Bool

pub record BiometricAuthResult : Type 0 where
  pub success : Bool
  pub error_message : Option String
  pub biometry_type : Option ℕ

pub record BiometricAvailability : Type 0 where
  pub has_hardware : Bool
  pub is_enrolled : Bool
  pub biometry_type : Option ℕ

-- `supported?.[0]`
abbrev pub first_type : Option (List ℕ) → Option ℕ
first_type (some (t ∷ ts)) = some t
first_type o = none

abbrev pub unavailable : BiometricAvailability
unavailable = record { has_hardware = false; is_enrolled = false; biometry_type = none }

abbrev pub available : Bool → Bool → Option ℕ → BiometricAvailability
available hardware enrolled t = record {
  has_hardware = hardware;
  is_enrolled = enrolled;
  biometry_type = t;
}

-- The types are asked for only if there is hardware and somebody is enrolled.
abbrev pub with_types : Bool → Bool → Result Thrown (Option (List ℕ)) → BiometricAvailability
with_types true true (ok types) = available true true (first_type types)
with_types true true (throw e) = unavailable
with_types hardware enrolled types = available hardware enrolled none

abbrev pub from_answers :
    Result Thrown Bool
    → Result Thrown Bool
    → Result Thrown (Option (List ℕ))
    → BiometricAvailability
from_answers (ok hardware) (ok enrolled) types = with_types hardware enrolled types
from_answers hardware enrolled types = unavailable

unfoldable pub check_availability : LocalAuthentication → BiometricAvailability
check_availability m =
    from_answers m.has_hardware_async m.is_enrolled_async m.supported_authentication_types_async

-- `error instanceof Error ? error.message : fallback`
abbrev pub thrown_text : Thrown → String → String
thrown_text (error m) fallback = m
thrown_text other_value fallback = fallback

abbrev pub from_result : Result Thrown Bool → Option ℕ → String → BiometricAuthResult
from_result (ok success) t fallback = record {
  success = success;
  error_message = if success then none else some "Authentication failed";
  biometry_type = t;
}
from_result (throw e) t fallback = record {
  success = false;
  error_message = some (thrown_text e fallback);
  biometry_type = none;
}

abbrev pub refused : String → Option ℕ → BiometricAuthResult
refused text t = record { success = false; error_message = some text; biometry_type = t }

abbrev pub shopping_prompt : Prompt
shopping_prompt = record {
  prompt_message = "Authenticate to continue shopping";
  fallback_label = "Use passcode";
  disable_device_fallback = false;
}

unfoldable pub authenticate : LocalAuthentication → BiometricAuthResult
unfolding check_availability
authenticate m =
    let a = check_availability m in
    if not a.has_hardware || not a.is_enrolled
    then refused "Biometric authentication not available on this device" a.biometry_type
    else from_result (m.authenticate_async shopping_prompt) a.biometry_type
        "Unknown authentication error"

abbrev pub prompt_of : Options → Prompt
prompt_of o = record {
  prompt_message = or_default o.prompt_message "Authenticate to continue";
  fallback_label = or_default o.fallback_label "Use passcode";
  disable_device_fallback = elim o.disable_device_fallback [ none ↦ false | some b ↦ b ];
}

unfoldable pub authenticate_with_options : LocalAuthentication → Options → BiometricAuthResult
unfolding check_availability
authenticate_with_options m o =
    let a = check_availability m in
    if not a.has_hardware || not a.is_enrolled
    then refused "Biometric authentication not available" a.biometry_type
    else from_result (m.authenticate_async (prompt_of o)) a.biometry_type "Unknown error"

-- The constants of `LocalAuthentication.AuthenticationType`.
pub record AuthenticationTypes : Type 0 where
  pub fingerprint : ℕ
  pub facial_recognition : ℕ
  pub iris : ℕ

unfoldable get_biometry_type_name : AuthenticationTypes → Option ℕ → String
get_biometry_type_name c none = "Unknown"
get_biometry_type_name c (some t) =
    if t == 0
    then "Unknown"
    else if t == c.fingerprint
    then "Fingerprint"
    else if t == c.facial_recognition
    then "Face Recognition"
    else if t == c.iris
    then "Iris Recognition"
    else "Biometric"
