-- ===== src/Web/Session.antt =====
-- src/Presentation/Web/src/infrastructure/persistence/AuthAPIService.ts and
-- src/Presentation/Web/src/presentation/features/auth/hooks/useAuth.ts, with the guard on additions
-- in src/Presentation/Web/src/presentation/features/cart/hooks/useCart.ts. The service keeps its
-- tokens under the keys of the HTTP client, and authSlice its own under another key, in the one
-- `localStorage`. What the server answers, or the message of what is thrown, are arguments, and so is
-- what the interceptor of the client (Http) did to its tokens while a call was made. Where it cleared
-- them, the browser goes on to load "/login": a page that is loaded anew is not followed.
pub mod Tokens
mod Tests
use Prim.Native.String.{◌++◌ as append}
use pipeline_azure.Prelude.{
  ◌==◌, Bool, true, false, not, Option, none, some, String, List, [], ◌∷◌, ◌++◌, Result, ok, throw,
  or_default, string_eq, ◌==◌, if◌then◌else◌,
}
use pipeline_azure.Storage.{LocalStorage}
use pipeline_azure.Http.{web_keys, set_auth_token, set_refresh_token, clear_tokens}
use pipeline_azure.Web.Auth.{User, Page, Action, set_credentials, logout, reduce}

pub record AuthResult : Type 0 where
  pub access_token : String
  pub refresh_token : String
  pub user : User

-- What the interceptor did: nothing, it stored the tokens of a refresh, or it cleared both.
pub data Renewal : Type 0 where
  untouched cleared : Renewal
  renewed : (access refresh : String) → Renewal

-- What the server answers to a registration.
pub record Registration : Type 0 where
  pub succeeded : Bool
  pub errors : Option (List String)

-- The page with its slice and its storage, the address, and what was shown, oldest first.
pub record Site : Type 0 where
  pub page : Page
  pub location : String
  pub toasts : List String

abbrev pub Login : Type 0
Login = Result String AuthResult × LocalStorage String

abbrev pub store_tokens : AuthResult → LocalStorage String → LocalStorage String
store_tokens a st =
    set_refresh_token web_keys a.refresh_token (set_auth_token web_keys a.access_token st)

unfoldable pub renew : Renewal → LocalStorage String → LocalStorage String
renew untouched st = st
renew cleared st = clear_tokens web_keys st
renew (renewed access refresh) st =
    set_refresh_token web_keys refresh (set_auth_token web_keys access st)

-- The tokens of an answer that has them, and else the error.
abbrev with_result : String → Result String (Option AuthResult) → LocalStorage String → Login
with_result text (throw e) st = (throw e, st)
with_result text (ok none) st = (throw text, st)
with_result text (ok (some a)) st = (ok a, store_tokens a st)

unfoldable pub service_login : Result String (Option AuthResult) → LocalStorage String → Login
service_login answer st = with_result "Login failed" answer st

unfoldable service_refresh_token : Result String (Option AuthResult) → LocalStorage String → Login
service_refresh_token answer st = with_result "Token refresh failed" answer st

-- `errors.join(', ')`
abbrev join : List String → String
join [] = ""
join (e ∷ []) = e
join (e ∷ more ∷ errors) = append e (append ", " (join (more ∷ errors)))

abbrev joined : Option (List String) → Option String
joined none = none
joined (some errors) = some (join errors)

-- `register`, with the renewal and the answer of the login that follows a registration.
unfoldable pub service_register :
    Result String Registration
    → Renewal
    → Result String (Option AuthResult)
    → LocalStorage String
    → Login
unfolding service_login renew
service_register (throw e) renewal answer st = (throw e, st)
service_register (ok r) renewal answer st =
    if r.succeeded
    then service_login answer (renew renewal st)
    else (throw (or_default (joined r.errors) "Registration failed"), st)

abbrev pub show : String → Site → Site
show text s = record s { toasts = s.toasts ++ text ∷ [] }

abbrev pub with_storage : LocalStorage String → Site → Site
with_storage st s = record s { page = record s.page { storage = st } }

-- `window.location.href = '/login'`
abbrev pub redirect : Renewal → Site → Site
redirect untouched s = s
redirect cleared s = record s { location = "/login" }
redirect (renewed access refresh) s = s

unfoldable pub intercept : Renewal → Site → Site
unfolding renew
intercept renewal s = redirect renewal (with_storage (renew renewal s.page.storage) s)

-- `loginMutation`: `onSuccess` and `onError`.
abbrev after_login : Login → Site → Site
after_login (ok a, st) s =
    let s' = with_storage st s in
    show "Login successful"
      (record s' { page = reduce s'.page (set_credentials a.user a.access_token); location = "/" })
after_login (throw e, st) s = show (or_default (some e) "Login failed") (with_storage st s)

unfoldable pub log_in : Renewal → Result String (Option AuthResult) → Site → Site
unfolding service_login intercept
log_in renewal answer s =
    let s' = intercept renewal s in after_login (service_login answer s'.page.storage) s'

-- `registerMutation`: the slice is not told.
abbrev pub after_register : Login → Site → Site
after_register (ok a, st) s = record (show "Registration successful" (with_storage st s)) {
  location = "/";
}
after_register (throw e, st) s =
    show (or_default (some e) "Registration failed") (with_storage st s)

-- The second call is made only after a registration.
abbrev pub redirect_login : Result String Registration → Renewal → Site → Site
redirect_login (throw e) renewal s = s
redirect_login (ok r) renewal s = if r.succeeded then redirect renewal s else s

unfoldable pub register :
    Renewal → Result String Registration → Renewal → Result String (Option AuthResult) → Site → Site
unfolding service_register intercept
register renewal answer login_renewal login_answer s =
    let s' = intercept renewal s in
    after_register (service_register answer login_renewal login_answer s'.page.storage)
      (redirect_login answer login_renewal s')

-- `logoutMutation`: the service, and then the slice.
unfoldable pub log_out : Site → Site
log_out s =
    let s' = with_storage (clear_tokens web_keys s.page.storage) s in
    show "Logged out successfully" (record s' { page = reduce s'.page logout; location = "/login" })

abbrev please_login : String
please_login = "Please login to add items to cart"

-- `addToCartMutation`, with what the repository's call comes back with; it is made only if somebody
-- is logged in.
abbrev pub after_addition : Result String (Unit {0}) → Site → Site
after_addition (ok _) s = show "Product added to cart" s
after_addition (throw e) s =
    if e == please_login
    then record (show please_login s) { location = "/login" }
    else show "Failed to add product to cart" s

unfoldable pub add_to_cart : Renewal → Result String (Unit {0}) → Site → Site
unfolding intercept
add_to_cart renewal answer s =
    if not s.page.state.is_authenticated
    then record (show please_login s) { location = "/login" }
    else after_addition answer (intercept renewal s)

pub data Event : Type 0 where
  logs_in : Renewal → Result String (Option AuthResult) → Event
  registers :
      Renewal → Result String Registration → Renewal → Result String (Option AuthResult) → Event
  logs_out : Event
  adds_to_cart : Renewal → Result String (Unit {0}) → Event

unfoldable pub step : Event → Site → Site
unfolding log_in register log_out add_to_cart
step (logs_in renewal answer) s = log_in renewal answer s
step (registers renewal answer login_renewal login_answer) s =
    register renewal answer login_renewal login_answer s
step logs_out s = log_out s
step (adds_to_cart renewal answer) s = add_to_cart renewal answer s

unfoldable pub run : List Event → Site → Site
unfolding step
run [] s = s
run (e ∷ events) s = run events (step e s)
