-- ===== src/Http/Tests.antt =====
-- The HTTP client on concrete requests, and its theorems at them.
use pipeline_azure.Prelude.{arith, ◌+◌, ◌≡◌, refl, true, false, none, some, List, [], ◌∷◌}
use pipeline_azure.Storage.{get_item}
use pipeline_azure.Http.{
  map, get_refresh_token, ℕ, Request, Client, TokenPair, Event, call, fail, refreshed, web_keys,
  run, step, get_auth_token,
}
use pipeline_azure.Http.Inv.{Inv}
use pipeline_azure.Http.Settled.{account, failures, settled-run}
use pipeline_azure.Http.Tokens.{sent_with, Ended, step-refreshed}

abbrev request : ℕ → Request
request n = record { id = n; retry = false; has_headers = true; authorization = none }

abbrev signed_in : Client
signed_in = record {
  storage = ("authToken", "a1") ∷ ("refreshToken", "r1") ∷ [];
  location = none;
  is_refreshing = false;
  failed_queue = [];
  waiting = none;
  log = [];
}

signed_in-Inv : Inv signed_in
signed_in-Inv = record { idle = λ _. (refl, refl); busy = λ h. ground arith; queued = tt }

abbrev new_pair : TokenPair
new_pair = record { access = "a2"; refresh = "r2" }

-- Two requests meet a 401, one refresh answers both, and the second fails once more.
abbrev session : List Event
session =
    call (request 1)
    ∷ fail (some 401) (request 1)
    ∷ fail (some 401) (request 2)
    ∷ refreshed new_pair
    ∷ fail (some 500) (request 2)
    ∷ []

settled-run_example :
    account 2 web_keys (run web_keys signed_in session)
    ≡ account 2 web_keys signed_in + failures 2 session
settled-run_example = settled-run 2 web_keys signed_in session signed_in-Inv

-- The client while its first request waits for a refresh, and another is queued.
abbrev waiting_client : Client
waiting_client = record signed_in {
  is_refreshing = true;
  waiting = some (record (request 1) { retry = true });
  failed_queue = request 2 ∷ [];
}

step-refreshed_example :
    (get_auth_token web_keys (step web_keys waiting_client (refreshed new_pair)).storage
      ≡ some "a2")
    × Ended web_keys
        (map (sent_with "a2") (record (request 1) { retry = true } ∷ request 2 ∷ []))
        waiting_client
        (step web_keys waiting_client (refreshed new_pair))
step-refreshed_example =
    step-refreshed web_keys waiting_client (record (request 1) { retry = true }) new_pair refl refl
      refl

session-refreshing : (run web_keys signed_in session).is_refreshing ≡ false
unfolding run step get_refresh_token get_item
session-refreshing = refl
