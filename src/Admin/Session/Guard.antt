-- ===== src/Admin/Session/Guard.antt =====
-- The admin panel: what the guard and the HTTP client do after the ways to log out.
use pipeline_azure.Prelude.{
  ◌≡◌, refl, ◌∙◌, ap, ℕ, true, false, none, some, String, is_truthy, is_truthy?, arith,
}
use pipeline_azure.Json.{Json}
use pipeline_azure.Storage.{LocalStorage, storage_laws}
use pipeline_azure.Http.{
  Request, authorize, get_auth_token, set_auth_token, set_refresh_token, clear_tokens,
  intercept_request,
}
use pipeline_azure.Admin.Http.{admin_keys}
use pipeline_azure.Admin.Cookies.{Text}
use pipeline_azure.Admin.Session.{
  Panel, AuthResponse, no_tokens, on_login, log_out, sign_out, before_load, reset,
}

get_auth_token-clear_tokens :
    (local : LocalStorage String) → get_auth_token admin_keys (clear_tokens admin_keys local) ≡ none
unfolding get_auth_token clear_tokens
get_auth_token-clear_tokens local = simp storage_laws

get_auth_token-set_tokens :
    (access refresh : String) (local : LocalStorage String)
    → is_truthy access ≡ true
    → get_auth_token admin_keys
        (set_refresh_token admin_keys refresh (set_auth_token admin_keys access local))
      ≡ some access
unfolding get_auth_token set_auth_token set_refresh_token
get_auth_token-set_tokens access refresh local h = grind (arith, storage_laws)

intercept_request-token :
    (local : LocalStorage String) (r : Request) (token : String)
    → get_auth_token admin_keys local ≡ some token
    → is_truthy token ≡ true
    → intercept_request admin_keys local r ≡ authorize token r
unfolding intercept_request
intercept_request-token local r token h t = ground (arith, h, t)

intercept_request-none :
    (local : LocalStorage String) (r : Request)
    → get_auth_token admin_keys local ≡ none
    → intercept_request admin_keys local r ≡ r
unfolding intercept_request
intercept_request-none local r h = ground (arith, h)

module _ (json : Json Text String) where
  local-on_login :
      (access refresh email : String) (now : ℕ) (p : Panel)
      → is_truthy access ≡ true
      → is_truthy refresh ≡ true
      → get_auth_token admin_keys
          (on_login json
            (record { access_token = some access; refresh_token = some refresh })
            email
            now
            p).local
        ≡ some access
  unfolding on_login
  local-on_login access refresh email now p h k =
      rw (h, k) (get_auth_token-set_tokens access refresh p.local h)

  -- After a login that was answered with two tokens that are not blank, the pages open. After
  -- `useLogout` they are closed and no request is given a token. The dialog that signs out empties
  -- the store too, but leaves the token in `localStorage`: the pages open as before, and every
  -- request still carries the token.
  pub before_load-sign_out :
      (access refresh email : String) (now : ℕ) (p : Panel) (r : Request)
      → is_truthy access ≡ true
      → is_truthy refresh ≡ true
      → let answer : AuthResponse = record {
        access_token = some access;
        refresh_token = some refresh;
      } in
        let p' = on_login json answer email now p in
        (before_load p' ≡ true)
        × (before_load (log_out p') ≡ false)
        × (intercept_request admin_keys (log_out p').local r ≡ r)
        × ((sign_out p').store ≡ no_tokens)
        × (before_load (sign_out p') ≡ true)
        × (intercept_request admin_keys (sign_out p').local r ≡ authorize access r)
  unfolding before_load log_out sign_out reset
  before_load-sign_out access refresh email now p r h k =
      let token = local-on_login access refresh email now p h k in
      let opens = ap is_truthy? token ∙ h in
      let gone = get_auth_token-clear_tokens _ in
      (
        opens,
        ap is_truthy? gone,
        intercept_request-none _ r gone,
        refl,
        opens,
        intercept_request-token _ r access token h,
      )
