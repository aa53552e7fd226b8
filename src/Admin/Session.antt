-- ===== src/Admin/Session.antt =====
-- src/Presentation/Admin/src/stores/auth-store.ts, with its cookies; the functions of
-- src/Presentation/Admin/src/hooks/useAuth.ts and lib/api/auth.ts that log in and out,
-- components/sign-out-dialog.tsx, the handlers of queries that fail in main.tsx, and the guard of
-- routes/_authenticated/route.tsx. The tokens stand three times: in `localStorage`, which the HTTP
-- client and the guard read, in cookies, and in the store. Texts that are only shown are left out.
pub mod Guard
pub mod Kept
pub mod Reload
mod Codec
mod Tests
use pipeline_azure.Prelude.{
  ◌*◌, ◌+◌, ℕ, Bool, true, false, not, ◌&&◌, Option, none, some, String, List, [], ◌∷◌, is_truthy,
  is_truthy?, nat_eq, ◌==◌, if◌then◌else◌,
}
use pipeline_azure.Json.{Json}
use pipeline_azure.Storage.{LocalStorage}
use pipeline_azure.Http as http
use pipeline_azure.Admin.Http.{admin_keys}
use pipeline_azure.Admin.Cookies.{
  Text, codes, Cookies, get_cookie, set_cookie, remove_cookie, default_max_age,
}

pub record AuthUser : Type 0 where
  pub account_no : String
  pub email : String
  pub role : List String
  pub exp : ℕ

pub record Store : Type 0 where
  pub user : Option AuthUser
  pub access_token : String
  pub refresh_token : String

pub record Panel : Type 0 where
  pub local : LocalStorage String
  pub cookies : Cookies
  pub store : Store
  pub location : String

abbrev pub access_name : Text
access_name = codes "admin_access_token"

abbrev pub refresh_name : Text
refresh_name = codes "admin_refresh_token"

-- The answer to a login, and the data of it that is used.
pub record AuthResponse : Type 0 where
  pub access_token : Option String
  pub refresh_token : Option String

module _ (json : Json Text String) where
  -- `cookie ? JSON.parse(cookie) : ''`; `none` where the text does not parse, which throws.
  abbrev pub from_cookie : Option Text → Option String
  from_cookie none = some ""
  from_cookie (some text) = if json.is_blank text then some "" else json.parse text

  abbrev pub both_tokens : Option String → Option String → Option Store
  both_tokens none refresh = none
  both_tokens (some access) none = none
  both_tokens (some access) (some refresh) =
      some (record { user = none; access_token = access; refresh_token = refresh })

  -- What `create` starts from.
  unfoldable pub initial_store : Cookies → Option Store
  initial_store cookies =
      both_tokens (from_cookie (get_cookie access_name cookies))
        (from_cookie (get_cookie refresh_name cookies))

  abbrev pub set_user : Option AuthUser → Panel → Panel
  set_user user p = record p { store = record p.store { user = user } }

  unfoldable pub set_access_token : String → Panel → Panel
  set_access_token token p = record p {
    cookies = set_cookie access_name (json.stringify token) default_max_age p.cookies;
    store = record p.store { access_token = token };
  }

  unfoldable pub set_refresh_token : String → Panel → Panel
  set_refresh_token token p = record p {
    cookies = set_cookie refresh_name (json.stringify token) default_max_age p.cookies;
    store = record p.store { refresh_token = token };
  }

  -- `authApi.setTokens`
  abbrev pub set_tokens : String → String → Panel → Panel
  set_tokens access refresh p = record p {
    local =
        http.set_refresh_token admin_keys refresh (http.set_auth_token admin_keys access p.local);
  }

  -- The two tokens, if both are there and not blank.
  abbrev pub store_tokens : Option String → Option String → Panel → Panel
  store_tokens none refresh p = p
  store_tokens (some access) none p = p
  store_tokens (some access) (some refresh) p =
      if is_truthy access && is_truthy refresh
      then set_refresh_token refresh (set_access_token access (set_tokens access refresh p))
      else p

  -- `onSuccess` of `useLogin`; `now` is `Date.now()`, in milliseconds.
  unfoldable pub on_login : AuthResponse → String → ℕ → Panel → Panel
  unfolding set_access_token set_refresh_token
  on_login answer email now p =
      set_user
        (some
          (record { account_no = ""; email = email; role = []; exp = now + 24 * 60 * 60 * 1000 }))
        (store_tokens answer.access_token answer.refresh_token p)

abbrev pub no_tokens : Store
no_tokens = record { user = none; access_token = ""; refresh_token = "" }

abbrev pub without_cookies : Cookies → Cookies
without_cookies cookies = remove_cookie refresh_name (remove_cookie access_name cookies)

unfoldable pub reset_access_token : Panel → Panel
reset_access_token p = record p {
  cookies = remove_cookie access_name p.cookies;
  store = record p.store { access_token = "" };
}

unfoldable pub reset_refresh_token : Panel → Panel
reset_refresh_token p = record p {
  cookies = remove_cookie refresh_name p.cookies;
  store = record p.store { refresh_token = "" };
}

unfoldable pub reset : Panel → Panel
reset p = record p { cookies = without_cookies p.cookies; store = no_tokens }

-- `useLogout`
unfoldable pub log_out : Panel → Panel
unfolding reset
log_out p =
    let p' = record p { local = http.clear_tokens admin_keys p.local } in
    record (reset p') { location = "/sign-in" }

-- `handleSignOut` of the dialog.
unfoldable pub sign_out : Panel → Panel
unfolding reset
sign_out p = record (reset p) { location = "/sign-in" }

-- `onError` of the query cache, for the status of the answer, if there is one.
unfoldable pub on_query_error : (is_prod : Bool) → Option ℕ → Panel → Panel
unfolding reset
on_query_error is_prod none p = p
on_query_error is_prod (some status) p =
    if status == 401
    then record (reset p) { location = "/sign-in" }
    else if status == 500 && is_prod
    then record p { location = "/500" }
    else p

-- `beforeLoad` of the pages for which one must be logged in: whether they open.
unfoldable pub before_load : Panel → Bool
before_load p = is_truthy? (http.get_auth_token admin_keys p.local)
