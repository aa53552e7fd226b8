-- ===== src/App/Biometrics/Hook.antt =====
-- src/Presentation/App/src/presentation/features/Auth/hooks/useBiometricAuth.ts
-- The hook between two renders. The service catches what the phone throws, so that the `catch`
-- clauses of the hook are never reached. Each call sees the phone as it is at its time.
use pipeline_azure.Prelude.{
  Bool, true, false, not, ◌&&◌, Option, none, some, String, List, [], ◌∷◌, is_truthy?,
  if◌then◌else◌,
}
use pipeline_azure.App.Biometrics.{
  AuthenticationTypes, Options, LocalAuthentication, BiometricAuthResult, BiometricAvailability,
  check_availability, refused, authenticate, authenticate_with_options, get_biometry_type_name,
}

pub record Hook : Type 0 where
  pub is_loading : Bool
  pub availability : Option BiometricAvailability
  pub error : Option String

abbrev pub unused : Hook
unused = record { is_loading = false; availability = none; error = none }

abbrev pub Answer : Type 0
Answer = BiometricAuthResult × Hook

-- `availability?.hasHardware && availability?.isEnrolled`
abbrev pub is_available : Hook → Bool
is_available h = elim h.availability [ none ↦ false | some a ↦ a.has_hardware && a.is_enrolled ]

-- `setIsLoading(true); setError(null)`
abbrev starts : Hook → Hook
starts h = record h { is_loading = true; error = none }

-- `finally { setIsLoading(false) }`
abbrev finally : Answer → Answer
finally (r, h) = (r, record h { is_loading = false })

abbrev pub not_available : String
not_available = "Biometric authentication not available on this device"

-- `if (!result.success && result.error) setError(result.error)`
abbrev pub shows_error : BiometricAuthResult → Hook → Hook
shows_error r h =
    if not r.success && is_truthy? r.error_message then record h { error = r.error_message } else h

-- What both ways to authenticate have in common: `validateAvailability()` returns early, with its
-- text as the error, and else the service is asked.
abbrev pub respond : Bool → BiometricAuthResult → Hook → Answer
respond false r h =
    finally (refused not_available none, record (starts h) { error = some not_available })
respond true r h = finally (r, shows_error r (starts h))

unfoldable pub check_phone : LocalAuthentication → Hook → Hook
check_phone m h = record h { error = none; availability = some (check_availability m) }

unfoldable pub hook_authenticate : LocalAuthentication → Hook → Answer
hook_authenticate m h = respond (is_available h) (authenticate m) h

unfoldable pub hook_authenticate_with_options : LocalAuthentication → Options → Hook → Answer
hook_authenticate_with_options m o h = respond (is_available h) (authenticate_with_options m o) h

abbrev pub clear_error : Hook → Hook
clear_error h = record h { error = none }

unfoldable biometry_type_name : AuthenticationTypes → Hook → String
biometry_type_name c h = elim h.availability [
  | none ↦ "Unknown"
  | some a ↦ elim a.biometry_type [ none ↦ "Unknown" | some t ↦ get_biometry_type_name c (some t) ]
]

-- What a component calls.
pub data Call : Type 0 where
  checks authenticates : LocalAuthentication → Call
  authenticates_with : LocalAuthentication → Options → Call
  clears_error : Call

unfoldable pub call : Call → Hook → Hook
unfolding check_phone hook_authenticate hook_authenticate_with_options
call (checks m) h = check_phone m h
call (authenticates m) h = (hook_authenticate m h).1
call (authenticates_with m o) h = (hook_authenticate_with_options m o h).1
call clears_error h = clear_error h

unfoldable pub run : List Call → Hook → Hook
unfolding call
run [] h = h
run (c ∷ calls) h = run calls (call c h)
