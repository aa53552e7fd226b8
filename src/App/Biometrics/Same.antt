-- ===== src/App/Biometrics/Same.antt =====
-- useBiometricAuth and useBiometrics on one phone.
use pipeline_azure.Prelude.{
  ◌≡◌, refl, ℕ, Bool, true, false, ◌&&◌, Option, none, some, List, [], ◌∷◌, arith, Result, ok,
  throw, ◌∙◌, ap, sym,
}
use pipeline_azure.App.Biometrics.{Options, Thrown, LocalAuthentication, AuthenticationTypes}
use pipeline_azure.App.Biometrics.Answers.{answers, says_yes, can_ask}
use pipeline_azure.App.Biometrics.Hook.{unused, check_phone, hook_authenticate, checks, call, run}
use pipeline_azure.App.Biometrics.Checked.{authenticate-run}
use pipeline_azure.App.Biometrics.Device.{
  Outcome, accepted, refused, Phone, Biometrics, mounted, check_device_compatibility, with_hardware,
  with_types, authenticate, from_answer, is_available,
}

-- A phone that answers either hook alike, whatever it is asked to show.
abbrev pub accepts : Result Thrown Outcome → Result Thrown Bool
accepts (ok accepted) = ok true
accepts (ok (refused e)) = ok false
accepts (throw e) = throw e

abbrev pub listed : Result Thrown (List ℕ) → Result Thrown (Option (List ℕ))
listed (ok types) = ok (some types)
listed (throw e) = throw e

abbrev pub as_service : Phone → LocalAuthentication
as_service p = record {
  has_hardware_async = p.has_hardware_async;
  is_enrolled_async = p.is_enrolled_async;
  supported_authentication_types_async = listed p.supported_authentication_types_async;
  authenticate_async = λ _. accepts p.authenticate_async;
}

abbrev no_options : Options
no_options = record { prompt_message = none; fallback_label = none; disable_device_fallback = none }

with_types-is_available :
    (c : AuthenticationTypes) (t : Result Thrown (List ℕ)) (b : Biometrics)
    → is_available (with_types c t b) ≡ is_available b
with_types-is_available c (ok []) b = refl
with_types-is_available c (ok (x ∷ types)) b = refl
with_types-is_available c (throw e) b = refl

with_hardware-is_available :
    (c : AuthenticationTypes) (p : Phone) (h e : Result Thrown Bool)
    → p.is_enrolled_async ≡ e
    → is_available (with_hardware c p h mounted) ≡ (says_yes h && says_yes e)
with_hardware-is_available c p (throw x) e same = refl
with_hardware-is_available c p (ok false) e same = refl
with_hardware-is_available c p (ok true) (throw x) same = rw same refl
with_hardware-is_available c p (ok true) (ok enrolled) same =
    rw same (with_types-is_available c p.supported_authentication_types_async _)

from_answer-accepts : (o : Result Thrown Outcome) → (from_answer o).0 ≡ says_yes (accepts o)
from_answer-accepts (ok accepted) = refl
from_answer-accepts (ok (refused e)) = refl
from_answer-accepts (throw e) = refl

answers-listed : (t : Result Thrown (List ℕ)) → answers (listed t) ≡ answers t
answers-listed (ok types) = refl
answers-listed (throw e) = refl

authenticate-is_available :
    (p : Phone) (b : Biometrics)
    → (authenticate p b).0 ≡ (is_available b && says_yes (accepts p.authenticate_async))
unfolding authenticate
authenticate-is_available p b = ground (arith, from_answer-accepts p.authenticate_async)

regroup : (h e t o : Bool) → ((h && e && t) && ((h && e && t) && o)) ≡ (t && ((h && e) && o))
regroup h e t o = ground arith

-- After the check that each makes, the two hooks let in the same users of a phone, but that
-- useBiometricAuth lets nobody in if the phone does not tell its types.
pub hook_authenticate-authenticate :
    (c : AuthenticationTypes) (p : Phone)
    → (hook_authenticate (as_service p) (check_phone (as_service p) unused)).0.success ≡ (
        answers p.supported_authentication_types_async
        && (authenticate p (check_device_compatibility c p mounted)).0)
unfolding run call check_device_compatibility can_ask
hook_authenticate-authenticate c p =
    let m = as_service p in
    let let_in = says_yes (accepts p.authenticate_async) in
    (authenticate-run (checks m ∷ []) m no_options).0.success
    ∙ ap
        (λ t.
          let asks = says_yes p.has_hardware_async && says_yes p.is_enrolled_async && t in
          asks && (asks && let_in))
        (answers-listed p.supported_authentication_types_async)
    ∙ regroup (says_yes p.has_hardware_async) (says_yes p.is_enrolled_async) _ let_in
    ∙ ap (λ b. answers p.supported_authentication_types_async && b)
        (sym (
          authenticate-is_available p _
          ∙ ap (λ b. b && let_in) (with_hardware-is_available c p p.has_hardware_async _ refl)))
