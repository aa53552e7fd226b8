-- ===== src/App/Auth.antt =====
-- src/Presentation/App/src/presentation/store/slices/authSlice.ts, and
-- infrastructure/persistence/SecureStorageService.ts beside it.
-- AsyncStorage, `expo-secure-store` and the server are not in the repository: a `Device` and a
-- function from requests to answers stand for them.
mod Stored
mod Sessions
pub mod Requests
mod Tests
use package.text.Mathlib.Text.{◌==◌ as str_eq}
use pipeline_azure.Prelude.{
  ◌≡◌, Bool, true, false, not, ◌&&◌, Option, none, some, String, List, [], ◌∷◌, Result, ok, throw,
  is_truthy, is_truthy?, or_default, if◌then◌else◌,
}
use pipeline_azure.App.Api.{ApiError, error_text}

-- A store of texts under keys, each call of which may throw, and its documented behaviour.
pub record Device (S : Type 0) : Type 0 where
  pub set_item_async : String → String → S → Result ApiError S
  pub get_item_async : String → S → Result ApiError (Option String)
  pub delete_item_async : String → S → Result ApiError S
  pub get-set :
      (key value : String) (s s' : S)
      → set_item_async key value s ≡ ok s'
      → get_item_async key s' ≡ ok (some value)
  pub get-set_other :
      (key other value : String) (s s' : S)
      → set_item_async key value s ≡ ok s'
      → str_eq key other ≡ false
      → get_item_async other s' ≡ get_item_async other s
  pub get-delete :
      (key : String) (s s' : S) → delete_item_async key s ≡ ok s' → get_item_async key s' ≡ ok none
  pub get-delete_other :
      (key other : String) (s s' : S)
      → delete_item_async key s ≡ ok s'
      → str_eq key other ≡ false
      → get_item_async other s' ≡ get_item_async other s

pub record LoginRequest : Type 0 where
  pub email : String
  pub password : String

pub record AuthResponse : Type 0 where
  pub access_token : String
  pub refresh_token : String

pub record ApiResponse : Type 0 where
  pub is_success : Bool
  pub message : Option String
  pub payload : AuthResponse

pub record AuthState (User : Type 0) : Type 0 where
  pub user : Option User
  pub token : Option String
  pub is_authenticated : Bool
  pub loading : Bool
  pub error : Option String

pub data Action (User : Type 0) : Type 0 where
  set_token : String → Action User
  login_pending biometric_pending biometric_fulfilled : Action User
  logout_fulfilled profile_pending : Action User
  login_fulfilled : AuthResponse → Action User
  login_rejected biometric_rejected profile_rejected : Option String → Action User
  profile_fulfilled : Option User → Action User

module _ {User : Type 0} where
  abbrev pub initial_state : AuthState User
  initial_state = record {
    user = none;
    token = none;
    is_authenticated = false;
    loading = false;
    error = none;
  }

  unfoldable pub reduce : AuthState User → Action User → AuthState User
  reduce s (set_token t) = record s { token = some t; is_authenticated = is_truthy t }
  reduce s login_pending = record s { loading = true; error = none }
  reduce s (login_fulfilled r) = record s {
    loading = false;
    token = some r.access_token;
    is_authenticated = true;
  }
  reduce s (login_rejected e) = record s { loading = false; error = e }
  reduce s biometric_pending = record s { loading = true; error = none }
  reduce s biometric_fulfilled = record s { loading = false; is_authenticated = true }
  reduce s (biometric_rejected e) = record s { loading = false; error = e }
  reduce s logout_fulfilled = record s { user = none; token = none; is_authenticated = false }
  reduce s profile_pending = record s { loading = true }
  reduce s (profile_fulfilled u) = record s { loading = false; user = u }
  reduce s (profile_rejected e) = record s { loading = false; error = e }

-- How a thunk ends.
pub data Outcome (A : Type 0) : Type 0 where
  fulfilled : A → Outcome A
  rejected : String → Outcome A

-- The two stores of the phone.
pub record Phone (A B : Type 0) : Type 0 where
  pub async_storage : A
  pub secure_store : B

pub record App (User A B : Type 0) : Type 0 where
  pub state : AuthState User
  pub phone : Phone A B

module _ {A B : Type 0} (storage : Device A) (secure : Device B) where
  -- A statement that may throw; what the ones before it did stays.
  abbrev pub Statement : Type 0
  Statement = Phone A B → Result ApiError (Unit {0}) × Phone A B

  infixl 5 ◌>>◌
  abbrev pub ◌>>◌ : Statement → Statement → Statement
  m >> k = λ p. let (r, p') = m p in elim r [ ok u ↦ k p' | throw e ↦ (throw e, p') ]

  abbrev pub on_storage : (A → Result ApiError A) → Statement
  on_storage f p = elim (f p.async_storage) [
    | ok a ↦ (ok tt, record p { async_storage = a })
    | throw e ↦ (throw e, p)
  ]

  -- SecureStorageService passes an error of `setItem` and `removeItem` on.
  abbrev pub on_secure : (B → Result ApiError B) → Statement
  on_secure f p = elim (f p.secure_store) [
    | ok b ↦ (ok tt, record p { secure_store = b })
    | throw e ↦ (throw e, p)
  ]

  abbrev pub secure_set_item : String → String → Statement
  secure_set_item key value = on_secure (secure.set_item_async key value)

  abbrev pub secure_remove_item : String → Statement
  secure_remove_item key = on_secure (secure.delete_item_async key)

  -- `getItem` reads an error as null.
  abbrev pub secure_get_item : String → Phone A B → Option String
  secure_get_item key p = elim (secure.get_item_async key p.secure_store) [
    | ok v ↦ v
    | throw e ↦ none
  ]

  abbrev contains_key : String → Phone A B → Bool
  contains_key key p = elim (secure_get_item key p) [ none ↦ false | some v ↦ true ]

  unfoldable pub save_session : LoginRequest → AuthResponse → Statement
  save_session c r =
      on_storage (storage.set_item_async "token" r.access_token)
      >> on_storage (storage.set_item_async "refreshToken" r.refresh_token)
      >> secure_set_item "user_email" c.email
      >> secure_set_item "user_password" c.password

  -- The thunk of `login`, from the answer to its request.
  unfoldable pub login :
      LoginRequest → Result ApiError ApiResponse → Phone A B → Outcome AuthResponse × Phone A B
  unfolding save_session
  login c (throw e) p = (rejected (error_text e "Login failed"), p)
  login c (ok reply) p =
      if not reply.is_success
      then (rejected (or_default reply.message "Login failed"), p)
      else (let (r, p') = save_session c reply.payload p in
          elim r [
            | ok u ↦ (fulfilled reply.payload, p')
            | throw e ↦ (rejected (error_text e "Login failed"), p')
          ])

  unfoldable pub remove_session : Statement
  remove_session =
      on_storage (storage.delete_item_async "token")
      >> on_storage (storage.delete_item_async "refreshToken")
      >> secure_remove_item "user_email"
      >> secure_remove_item "user_password"

  module _ {User : Type 0} where
    abbrev pub ended : Outcome AuthResponse → Action User
    ended (fulfilled r) = login_fulfilled r
    ended (rejected e) = login_rejected (some e)

    unfoldable pub dispatch_login :
        (LoginRequest → Result ApiError ApiResponse) → LoginRequest → App User A B → App User A B
    unfolding login reduce
    dispatch_login post c app =
        let (outcome, p) = login c (post c) app.phone in
        record { state = reduce (reduce app.state login_pending) (ended outcome); phone = p }

    -- `if (email && password)`
    unfoldable pub with_credentials :
        (LoginRequest → Result ApiError ApiResponse)
        → Option String
        → Option String
        → App User A B
        → App User A B
    unfolding dispatch_login reduce
    with_credentials post (some email) (some password) app =
        if is_truthy email && is_truthy password
        then (let app' = dispatch_login post (record { email = email; password = password }) app in
            record app' { state = reduce app'.state biometric_fulfilled })
        else record app {
          state =
              reduce app.state
                (biometric_rejected (some "No credentials stored for biometric login"));
        }
    with_credentials post email password app = record app {
      state =
          reduce app.state (biometric_rejected (some "No credentials stored for biometric login"));
    }

    unfoldable pub dispatch_biometric_login :
        (LoginRequest → Result ApiError ApiResponse) → App User A B → App User A B
    unfolding with_credentials reduce
    dispatch_biometric_login post app =
        with_credentials post (secure_get_item "user_email" app.phone)
          (secure_get_item "user_password" app.phone)
          (record app { state = reduce app.state biometric_pending })

    -- No case of the reducer takes a `logout` that was rejected.
    unfoldable pub dispatch_logout : App User A B → App User A B
    unfolding remove_session reduce
    dispatch_logout app =
        let (r, p) = remove_session app.phone in
        elim r [
          | ok u ↦ record { state = reduce app.state logout_fulfilled; phone = p }
          | throw e ↦ record app { phone = p }
        ]

    -- `response.data?.data`, or the error of the call.
    unfoldable dispatch_fetch_user_profile :
        Result ApiError (Option User) → App User A B → App User A B
    unfolding reduce
    dispatch_fetch_user_profile reply app = record app {
      state = reduce (reduce app.state profile_pending) (elim reply [
        | ok u ↦ profile_fulfilled u
        | throw e ↦
            profile_rejected (some (or_default e.response_message "Failed to fetch profile"))
      ]);
    }
