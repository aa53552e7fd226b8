-- ===== src/Web/Session/Tokens.antt =====
-- The web shop: the token that requests carry, beside the one that authSlice holds.
use mathlib.Core.Path.{ap₂}
use pipeline_azure.Prelude.{
  ◌≡◌, refl, ◌∙◌, ap, Bool, true, false, not, Option, none, some, String, List, [], ◌∷◌, Result, ok,
  throw, is_truthy, arith, Bool-cases, inl, inr, eq_iff, if◌then◌else◌,
}
use pipeline_azure.Storage.{LocalStorage, set_item, remove_item, storage_laws}
use pipeline_azure.Http.{web_keys, get_auth_token, set_auth_token, set_refresh_token, clear_tokens}
use pipeline_azure.Web.Auth.{reduce}
use pipeline_azure.Web.Session.{
  Renewal, untouched, cleared, renewed, renew, intercept, redirect_login, after_addition, renewed,
  redirect_login, intercept, Renewal, after_addition, renew, AuthResult, Registration, Site, Event,
  logs_in, registers, logs_out, adds_to_cart, log_in, register, log_out, add_to_cart, step, run,
  service_login, service_register, after_register, Login, please_login,
}

-- A token that is stored: a blank one is removed.
abbrev pub kept : String → Option String
kept t = if is_truthy t then some t else none

-- The token of an answer to a login, or else the one of before.
abbrev pub answered : Result String (Option AuthResult) → Option String → Option String
answered (ok (some a)) before = kept a.access_token
answered _ before = before

-- The token that a renewal leaves.
abbrev pub renewed_token : Renewal → Option String → Option String
renewed_token untouched before = before
renewed_token cleared before = none
renewed_token (renewed access refresh) before = kept access

-- The token that requests carry: of the last login, registration or refresh since the last logout, and
-- none since the client cleared it. An addition calls the server only if the slice says that somebody
-- is logged in.
abbrev pub carried : Event → Bool → Option String → Option String
carried (logs_in renewal answer) logged_in before = answered answer (renewed_token renewal before)
carried (registers renewal (ok r) login_renewal answer) logged_in before =
    if r.succeeded
    then answered answer (renewed_token login_renewal (renewed_token renewal before))
    else renewed_token renewal before
carried (registers renewal (throw e) login_renewal answer) logged_in before =
    renewed_token renewal before
carried logs_out logged_in before = none
carried (adds_to_cart renewal answer) logged_in before =
    if logged_in then renewed_token renewal before else before

-- What the slice knows: of the last login since the last logout, and of no registration.
abbrev pub known : Event → Option String × Bool → Option String × Bool
known (logs_in renewal (ok (some a))) before = (some a.access_token, true)
known logs_out before = (none, false)
known _ before = before

abbrev pub all_known : List Event → Option String × Bool → Option String × Bool
all_known [] before = before
all_known (e ∷ events) before = all_known events (known e before)

abbrev pub all_carried : List Event → Option String × Bool → Option String → Option String
all_carried [] slice before = before
all_carried (e ∷ events) slice before =
    all_carried events (known e slice) (carried e slice.1 before)

abbrev pub slice_of : Site → Option String × Bool
slice_of s = (s.page.state.token, s.page.state.is_authenticated)

abbrev pub token_of : Site → Option String
token_of s = get_auth_token web_keys s.page.storage

token_of-set_tokens :
    (a r : String) (st : LocalStorage String)
    → get_auth_token web_keys (set_refresh_token web_keys r (set_auth_token web_keys a st)) ≡ kept a
unfolding get_auth_token set_auth_token set_refresh_token
token_of-set_tokens a r st = grind (arith, storage_laws)

-- The key of the slice is none of the two of the client.
token_of-own_key :
    (t : String) (st : LocalStorage String)
    → (get_auth_token web_keys (set_item "token" t st) ≡ get_auth_token web_keys st)
      × (get_auth_token web_keys (remove_item "token" st) ≡ get_auth_token web_keys st)
unfolding get_auth_token
token_of-own_key t st = (simp storage_laws, simp storage_laws)

token_of-clear_tokens :
    (st : LocalStorage String) → get_auth_token web_keys (clear_tokens web_keys st) ≡ none
unfolding get_auth_token clear_tokens
token_of-clear_tokens st = simp storage_laws

token_of-renew :
    (r : Renewal) (st : LocalStorage String)
    → get_auth_token web_keys (renew r st) ≡ renewed_token r (get_auth_token web_keys st)
unfolding renew
token_of-renew untouched st = refl
token_of-renew cleared st = token_of-clear_tokens st
token_of-renew (renewed a r) st = token_of-set_tokens a r st

intercept_lem :
    (r : Renewal) (s : Site)
    → (token_of (intercept r s) ≡ renewed_token r (token_of s))
      × (slice_of (intercept r s) ≡ slice_of s)
unfolding intercept
intercept_lem untouched s = (token_of-renew untouched s.page.storage, refl)
intercept_lem cleared s = (token_of-renew cleared s.page.storage, refl)
intercept_lem (renewed a r) s = (token_of-renew (renewed a r) s.page.storage, refl)

service_login-token :
    (answer : Result String (Option AuthResult)) (st : LocalStorage String)
    → get_auth_token web_keys (service_login answer st).1
      ≡ answered answer (get_auth_token web_keys st)
unfolding service_login
service_login-token (throw e) st = refl
service_login-token (ok none) st = refl
service_login-token (ok (some a)) st = token_of-set_tokens a.access_token a.refresh_token st

log_in_lem :
    (r : Renewal) (answer : Result String (Option AuthResult)) (s : Site)
    → (token_of (log_in r answer s) ≡ answered answer (renewed_token r (token_of s)))
      × (slice_of (log_in r answer s) ≡ known (logs_in r answer) (slice_of s))
unfolding log_in service_login reduce
log_in_lem r (throw e) s = intercept_lem r s
log_in_lem r (ok none) s = intercept_lem r s
log_in_lem r (ok (some a)) s = (
  (token_of-own_key a.access_token _).0 ∙ token_of-set_tokens a.access_token a.refresh_token _,
  refl,
)

after_register_lem :
    (l : Login) (s : Site)
    → (token_of (after_register l s) ≡ get_auth_token web_keys l.1)
      × (slice_of (after_register l s) ≡ slice_of s)
after_register_lem (ok a, st) s = (refl, refl)
after_register_lem (throw e, st) s = (refl, refl)

redirect_login_lem :
    (answer : Result String Registration) (r : Renewal) (s : Site)
    → slice_of (redirect_login answer r s) ≡ slice_of s
redirect_login_lem (throw e) r s = refl
redirect_login_lem (ok x) untouched s = ground arith
redirect_login_lem (ok x) cleared s = ground arith
redirect_login_lem (ok x) (renewed a b) s = ground arith

service_register-token :
    (answer : Result String Registration) (r r' : Renewal) (b : Bool) (before : Option String)
    (login_answer : Result String (Option AuthResult)) (st : LocalStorage String)
    → get_auth_token web_keys st ≡ renewed_token r before
    → get_auth_token web_keys (service_register answer r' login_answer st).1
      ≡ carried (registers r answer r' login_answer) b before
unfolding service_register
service_register-token (throw e) r r' b before login_answer st h = h
service_register-token (ok x) r r' b before login_answer st h = elim (Bool-cases x.succeeded) [
  | inl yes' ↦ rw yes' (
      service_login-token login_answer (renew r' st)
      ∙ ap (answered login_answer) (token_of-renew r' st ∙ ap (renewed_token r') h))
  | inr no' ↦ rw no' h
]

after_addition_lem :
    (answer : Result String (Unit {0})) (s : Site) → (after_addition answer s).page ≡ s.page
after_addition_lem (ok x) s = refl
after_addition_lem (throw e) s = ground (arith, eq_iff e please_login)

chosen :
    {A : Type 0} (b : Bool) (f : Site → A) (x y : Site) (u v : A)
    → f x ≡ u
    → f y ≡ v
    → f (if not b then x else y) ≡ (if b then v else u)
chosen true f x y u v h k = k
chosen false f x y u v h k = h

same_both : {A : Type 0} (b : Bool) (u : A) → (if b then u else u) ≡ u
same_both true u = refl
same_both false u = refl

add_to_cart_lem :
    (r : Renewal) (answer : Result String (Unit {0})) (s : Site)
    → (token_of (add_to_cart r answer s)
        ≡ carried (adds_to_cart r answer) s.page.state.is_authenticated (token_of s))
      × (slice_of (add_to_cart r answer s) ≡ slice_of s)
unfolding add_to_cart
add_to_cart_lem r answer s =
    let b = s.page.state.is_authenticated in
    let same = after_addition_lem answer (intercept r s) in
    let (token, slice) = intercept_lem r s in
    (
      chosen b token_of _ _ (token_of s) _ refl
          (ap (λ p. get_auth_token web_keys p.storage) same ∙ token),
      chosen b slice_of _ _ (slice_of s) (slice_of s) refl
            (ap (λ p. (p.state.token, p.state.is_authenticated)) same ∙ slice)
          ∙ same_both b (slice_of s),
    )

step_lem :
    (e : Event) (s : Site)
    → (token_of (step e s) ≡ carried e s.page.state.is_authenticated (token_of s))
      × (slice_of (step e s) ≡ known e (slice_of s))
unfolding step register log_out reduce
step_lem (logs_in r answer) s = log_in_lem r answer s
step_lem (registers r answer r' login_answer) s =
    let s' = intercept r s in
    let (token, slice) = intercept_lem r s in
    let l = service_register answer r' login_answer s'.page.storage in
    let (token', slice') = after_register_lem l (redirect_login answer r' s') in
    (
      token'
          ∙ service_register-token answer r r' s.page.state.is_authenticated (token_of s)
              login_answer _ token,
      slice' ∙ redirect_login_lem answer r' s' ∙ slice,
    )
step_lem logs_out s = ((token_of-own_key "" _).1 ∙ token_of-clear_tokens s.page.storage, refl)
step_lem (adds_to_cart r answer) s = add_to_cart_lem r answer s

-- After any logins, registrations, logouts and additions to the cart, whatever the interceptor of the
-- client did to the tokens while each call was made, and as long as the page is not loaded anew but
-- after a logout: the token that requests carry is that of the last login, registration or refresh that
-- succeeded since the last logout, and none where the client has cleared it since; authSlice holds the
-- token of the last login alone, which no refresh changes, and says that somebody is logged in just if
-- there was a login since the last logout: after a registration requests carry a token, and the shop
-- still asks the user to log in.
pub tokens-run :
    (events : List Event) (s : Site)
    → (token_of (run events s) ≡ all_carried events (slice_of s) (token_of s))
      × (slice_of (run events s) ≡ all_known events (slice_of s))
unfolding run
tokens-run [] s = (refl, refl)
tokens-run (e ∷ events) s =
    let (token, slice) = step_lem e s in
    let (token', slice') = tokens-run events (step e s) in
    (token' ∙ ap₂ (all_carried events) slice token, slice' ∙ ap (all_known events) slice)
