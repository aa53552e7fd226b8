-- ===== src/Http.antt =====
-- src/Presentation/Web/src/infrastructure/api/httpClient.ts, and with other keys
-- src/Presentation/Admin/src/lib/httpClient.ts
-- The response interceptor as a state machine: between two of its events the client waits for
-- answers. `axios` is not in the repository; what comes back are the events.
pub mod Inv
pub mod Settled
pub mod Tokens
mod Tests
use Prim.Native.String.{◌++◌ as append}
use pipeline_azure.Prelude.{
  ℕ, ◌≡◌, Bool, true, false, not, ◌&&◌, ◌||◌, Option, none, some, String, List, [], ◌∷◌, ◌++◌, map,
  nat_eq, ◌==◌, is_truthy, is_truthy?, if◌then◌else◌,
}
use pipeline_azure.Storage.{LocalStorage, get_item, set_item, remove_item}

-- `_retry` and `headers.Authorization` of a request's configuration.
pub record Request : Type 0 where
  pub id : ℕ
  pub retry : Bool
  pub has_headers : Bool
  pub authorization : Option String

-- What the handlers do to the world outside, in order.
pub data Effect : Type 0 where
  called resent rejected : Request → Effect
  posted_refresh : (access refresh : String) → Effect

-- `waiting` is the request whose handler awaits the answer to its refresh.
pub record Client : Type 0 where
  pub storage : LocalStorage String
  pub location : Option String
  pub is_refreshing : Bool
  pub failed_queue : List Request
  pub waiting : Option Request
  pub log : List Effect

pub record TokenPair : Type 0 where
  pub access : String
  pub refresh : String

pub data Event : Type 0 where
  call : Request → Event
  fail : Option ℕ → Request → Event
  refreshed : TokenPair → Event
  refresh_failed : Event

-- TOKEN_KEY, REFRESH_TOKEN_KEY and the page of the login.
pub record Keys : Type 0 where
  pub token_key : String
  pub refresh_token_key : String
  pub login_page : String

abbrev pub web_keys : Keys
web_keys = record {
  token_key = "authToken";
  refresh_token_key = "refreshToken";
  login_page = "/login";
}

abbrev pub bearer : String → String
bearer token = append "Bearer " token

-- `status === 401`
abbrev pub is_unauthorized : Option ℕ → Bool
is_unauthorized none = false
is_unauthorized (some status) = status == 401

-- `if (request.headers) request.headers.Authorization = …`
abbrev pub authorize : String → Request → Request
authorize token r = if r.has_headers then record r { authorization = some (bearer token) } else r

-- The text of a token that the test has found to be there.
abbrev pub or_blank : Option String → String
or_blank none = ""
or_blank (some s) = s

-- `processQueue(error)`
abbrev pub reject_queue : List Request → List Effect
reject_queue = map rejected

module _ (k : Keys) where
  unfoldable pub get_auth_token : LocalStorage String → Option String
  get_auth_token st = get_item k.token_key st

  unfoldable pub get_refresh_token : LocalStorage String → Option String
  get_refresh_token st = get_item k.refresh_token_key st

  unfoldable pub set_auth_token : String → LocalStorage String → LocalStorage String
  set_auth_token token st =
      if is_truthy token then set_item k.token_key token st else remove_item k.token_key st

  unfoldable pub set_refresh_token : String → LocalStorage String → LocalStorage String
  set_refresh_token token st =
      if is_truthy token
      then set_item k.refresh_token_key token st
      else remove_item k.refresh_token_key st

  unfoldable pub clear_tokens : LocalStorage String → LocalStorage String
  clear_tokens st = remove_item k.refresh_token_key (remove_item k.token_key st)

  -- The request interceptor.
  unfoldable pub intercept_request : LocalStorage String → Request → Request
  unfolding get_auth_token
  intercept_request st r = elim (get_auth_token st) [
    | none ↦ r
    | some token ↦ if is_truthy token then authorize token r else r
  ]

  -- `processQueue(null, token)`: each queued request is sent again.
  resend_queue : LocalStorage String → String → List Request → List Effect
  unfolding intercept_request
  resend_queue st token = map λ r. resent (intercept_request st (authorize token r))

  -- The head of the handler: the tokens are read, and the refresh is posted if there are both.
  start_refresh : Client → Request → Option String → Option String → Client
  unfolding clear_tokens
  start_refresh c r refresh access =
      if is_truthy? refresh && is_truthy? access
      then record c {
        is_refreshing = true;
        waiting = some r;
        log = c.log ++ posted_refresh (or_blank access) (or_blank refresh) ∷ [];
      }
      else record c {
        storage = clear_tokens c.storage;
        location = some k.login_page;
        is_refreshing = false;
        log = c.log ++ rejected r ∷ [];
      }

  unfoldable pub on_error : Client → Option ℕ → Request → Client
  unfolding start_refresh
  on_error c status r =
      if is_unauthorized status && not r.retry
      then (if c.is_refreshing
          then record c { failed_queue = c.failed_queue ++ r ∷ [] }
          else start_refresh c (record r { retry = true }) (get_refresh_token c.storage)
              (get_auth_token c.storage))
      else record c { log = c.log ++ rejected r ∷ [] }

  -- After `await axios.post(…)`, and `finally`.
  unfoldable pub on_refreshed : Client → Request → TokenPair → Client
  unfolding resend_queue intercept_request
  on_refreshed c r t =
      let st = set_refresh_token t.refresh (set_auth_token t.access c.storage) in
      record c {
        storage = st;
        is_refreshing = false;
        failed_queue = [];
        waiting = none;
        log =
            c.log
            ++ resent (intercept_request st (authorize t.access r))
              ∷ resend_queue st t.access c.failed_queue;
      }

  -- `catch (refreshError)`, and `finally`.
  unfoldable pub on_refresh_failed : Client → Request → Client
  unfolding clear_tokens
  on_refresh_failed c r = record c {
    storage = clear_tokens c.storage;
    location = some k.login_page;
    is_refreshing = false;
    failed_queue = [];
    waiting = none;
    log = c.log ++ reject_queue c.failed_queue ++ rejected r ∷ [];
  }

  -- An answer to a refresh comes only while one is awaited.
  unfoldable pub step : Client → Event → Client
  unfolding on_error on_refreshed on_refresh_failed intercept_request
  step c (call r) = record c { log = c.log ++ called (intercept_request c.storage r) ∷ [] }
  step c (fail status r) = on_error c status r
  step c (refreshed t) = elim c.waiting [ none ↦ c | some r ↦ on_refreshed c r t ]
  step c refresh_failed = elim c.waiting [ none ↦ c | some r ↦ on_refresh_failed c r ]

  unfoldable pub run : Client → List Event → Client
  unfolding step
  run c [] = c
  run c (e ∷ events) = run (step c e) events
