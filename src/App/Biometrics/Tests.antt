-- ===== src/App/Biometrics/Tests.antt =====
-- BiometricAuthService on a phone that recognises fingerprints, and its theorems at it.
use pipeline_azure.Prelude.{◌≡◌, refl, true, false, List, ◌&&◌, none, some, [], ◌∷◌, ok, throw}
use pipeline_azure.App.Biometrics.{
  LocalAuthentication, Options, AuthenticationTypes, error, shopping_prompt, prompt_of,
  authenticate, check_availability, available,
}
use pipeline_azure.App.Biometrics.Hook.{
  Call, unused, checks, authenticates, clears_error, run, hook_authenticate,
  hook_authenticate_with_options, check_phone,
}
use pipeline_azure.App.Biometrics.Checked.{Answered, checked, authenticate-run}
use pipeline_azure.App.Biometrics.Same.{as_service, hook_authenticate-authenticate}
use pipeline_azure.App.Biometrics.Device.{
  Phone, mounted, refused, check_device_compatibility, resolve_biometric_type,
  authenticate as device_authenticate,
}
use pipeline_azure.App.Biometrics.Answers.{can_ask, says_yes}

abbrev phone : LocalAuthentication
phone = record {
  has_hardware_async = ok true;
  is_enrolled_async = ok true;
  supported_authentication_types_async = ok (some (1 ∷ []));
  authenticate_async = λ prompt. throw (error "Lockout");
}

abbrev no_options : Options
no_options = record { prompt_message = none; fallback_label = none; disable_device_fallback = none }

fingerprints : check_availability phone ≡ available true true (some 1)
unfolding check_availability
fingerprints = refl

locked_out :
    authenticate phone
    ≡ record { success = false; error_message = some "Lockout"; biometry_type = none }
unfolding authenticate check_availability
locked_out = refl

abbrev history : List Call
history = authenticates phone ∷ checks phone ∷ clears_error ∷ []

authenticate-run_example :
    let h = run history unused in
    Answered
      (checked history false
        && (can_ask phone && says_yes (phone.authenticate_async shopping_prompt)))
      (hook_authenticate phone h)
    × Answered
        (checked history false
          && (can_ask phone && says_yes (phone.authenticate_async (prompt_of no_options))))
        (hook_authenticate_with_options phone no_options h)
authenticate-run_example = authenticate-run history phone no_options

abbrev constants : AuthenticationTypes
constants = record { fingerprint = 1; facial_recognition = 2; iris = 3 }

abbrev face_phone : Phone
face_phone = record {
  has_hardware_async = ok true;
  is_enrolled_async = ok true;
  supported_authentication_types_async = ok (1 ∷ 2 ∷ []);
  authenticate_async = ok (refused "user_cancel");
}

face_test : (check_device_compatibility constants face_phone mounted).biometric_type ≡ some 2
unfolding check_device_compatibility resolve_biometric_type
face_test = refl

cancelled_test :
    device_authenticate face_phone (check_device_compatibility constants face_phone mounted)
    ≡ (false, [])
unfolding check_device_compatibility device_authenticate
cancelled_test = refl

hook_authenticate-authenticate_example :
    (hook_authenticate
      (as_service face_phone)
      (check_phone (as_service face_phone) unused)).0.success
    ≡ (true
        && (device_authenticate face_phone
            (check_device_compatibility constants face_phone mounted)).0)
hook_authenticate-authenticate_example = hook_authenticate-authenticate constants face_phone
