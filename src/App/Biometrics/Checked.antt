-- ===== src/App/Biometrics/Checked.antt =====
-- useBiometricAuth: after any calls, whom it lets in.
use mathlib.Core.Path.{ap₂}
use pipeline_azure.Prelude.{
  sym, ◌≡◌, refl, ◌∙◌, ap, Bool, true, false, not, ◌&&◌, ◌||◌, Option, none, String, List, [], ◌∷◌,
  arith, is_truthy?, if◌then◌else◌,
}
use pipeline_azure.App.Biometrics.{
  Options, LocalAuthentication, BiometricAuthResult, check_availability, authenticate,
  shopping_prompt, authenticate_with_options, prompt_of,
}
use pipeline_azure.App.Biometrics.Answers.{
  says_yes, can_ask, from_answers-can_ask, authenticate-Agrees, authenticate_with_options-Agrees,
}
use pipeline_azure.App.Biometrics.Hook.{
  Hook, Answer, respond, unused, is_available, hook_authenticate, hook_authenticate_with_options,
  check_phone, Call, checks, authenticates, authenticates_with, clears_error, call, run,
}

-- What the last check found, if there was one.
abbrev pub checked : List Call → Bool → Bool
checked [] before = before
checked (checks m ∷ calls) before = checked calls (can_ask m)
checked (_ ∷ calls) before = checked calls before

-- What the hook shows of an answer.
abbrev pub shown : BiometricAuthResult → Option String
shown r = if r.success then none else if is_truthy? r.error_message then r.error_message else none

-- An answer that lets the user in just if `lets_in`, with the error shown and the loading over.
pub record Answered (lets_in : Bool) (a : Answer) : Type 0 where
  pub success : a.0.success ≡ lets_in
  pub error : a.1.error ≡ shown a.0
  pub is_loading : a.1.is_loading ≡ false

both-not : (a b : Bool) → (a && b) ≡ not (not a || not b)
both-not a b = ground arith

is_available-check_phone :
    (m : LocalAuthentication) (h : Hook) → is_available (check_phone m h) ≡ can_ask m
unfolding check_phone check_availability can_ask
is_available-check_phone m h =
    both-not _ _
    ∙ from_answers-can_ask m.has_hardware_async m.is_enrolled_async
        m.supported_authentication_types_async

respond-kept :
    (b : Bool) (r : BiometricAuthResult) (h : Hook)
    → ((respond b r h).1.is_loading ≡ false) × (is_available (respond b r h).1 ≡ is_available h)
respond-kept false r h = (refl, refl)
respond-kept true r h = (refl, ground arith)

respond-Answered :
    (b : Bool) (r : BiometricAuthResult) (h : Hook) → Answered (b && r.success) (respond b r h)
respond-Answered false r h = record { success = refl; error = refl; is_loading = refl }
respond-Answered true r h = record { success = refl; error = ground arith; is_loading = refl }

call_lem :
    (c : Call) (h : Hook)
    → h.is_loading ≡ false
    → ((call c h).is_loading ≡ false)
      × (is_available (call c h) ≡ checked (c ∷ []) (is_available h))
unfolding call check_phone hook_authenticate hook_authenticate_with_options
call_lem (checks m) h l = (l, is_available-check_phone m h)
call_lem (authenticates m) h l = respond-kept (is_available h) (authenticate m) h
call_lem (authenticates_with m o) h l =
    respond-kept (is_available h) (authenticate_with_options m o) h
call_lem clears_error h l = (l, refl)

checked-cons :
    (c : Call) (calls : List Call) (b : Bool)
    → checked (c ∷ calls) b ≡ checked calls (checked (c ∷ []) b)
checked-cons (checks m) calls b = refl
checked-cons (authenticates m) calls b = refl
checked-cons (authenticates_with m o) calls b = refl
checked-cons clears_error calls b = refl

is_available-run :
    (calls : List Call) (h : Hook)
    → h.is_loading ≡ false
    → is_available (run calls h) ≡ checked calls (is_available h)
unfolding run
is_available-run [] h l = refl
is_available-run (c ∷ calls) h l =
    let (l', a) = call_lem c h l in
    is_available-run calls (call c h) l' ∙ ap (checked calls) a ∙ sym (checked-cons c calls _)

-- After any calls of a hook, an authentication lets the user in just if the last check found that
-- the phone can ask, the phone can still ask, and its library accepts the user, with the prompt of
-- the shop or with that of the options. An error is shown just if the answer has one with a text,
-- and the loading is over.
pub authenticate-run :
    (calls : List Call) (m : LocalAuthentication) (o : Options)
    → let h = run calls unused in
      Answered
        (checked calls false && (can_ask m && says_yes (m.authenticate_async shopping_prompt)))
        (hook_authenticate m h)
      × Answered
          (checked calls false && (can_ask m && says_yes (m.authenticate_async (prompt_of o))))
          (hook_authenticate_with_options m o h)
unfolding hook_authenticate hook_authenticate_with_options
authenticate-run calls m o =
    let h = run calls unused in
    let a = is_available-run calls unused refl in
    let plain = respond-Answered (is_available h) (authenticate m) h in
    let with = respond-Answered (is_available h) (authenticate_with_options m o) h in
    (
      record {
        success = plain.success ∙ ap₂ (λ a b. a && b) a (authenticate-Agrees m).0;
        error = plain.error;
        is_loading = plain.is_loading;
      },
      record {
        success = with.success ∙ ap₂ (λ a b. a && b) a (authenticate_with_options-Agrees m o).0;
        error = with.error;
        is_loading = with.is_loading;
      },
    )
