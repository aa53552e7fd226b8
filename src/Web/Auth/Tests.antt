-- ===== src/Web/Auth/Tests.antt =====
-- authSlice of the web shop on a concrete session.
use pipeline_azure.Prelude.{◌≡◌, refl, true, none, some, List, [], ◌∷◌}
use pipeline_azure.Storage.{get_item, remove_item}
use pipeline_azure.Http.{
  clear_tokens, on_refresh_failed, Client, Request, refresh_failed, web_keys, step,
}
use pipeline_azure.Web.Auth.{
  Page, User, Action, set_credentials, logout, set_loading, initial_state, run,
}

abbrev page : Page
page = record { state = initial_state []; storage = [] }

abbrev user : User
user = record { id = "7"; email = "a@b.c"; roles = "admin" ∷ [] }

abbrev actions : List Action
actions = set_loading true ∷ set_credentials user "t1" ∷ logout ∷ set_credentials user "t2" ∷ []

still_there : (run page actions).state.token ≡ some "t2"
unfolding run
still_there = refl

abbrev waiting_request : Request
waiting_request = record { id = 1; retry = true; has_headers = true; authorization = none }

abbrev client : Client
client = record {
  storage = ("token", "t2") ∷ ("authToken", "t2") ∷ ("refreshToken", "r2") ∷ [];
  location = none;
  is_refreshing = true;
  failed_queue = [];
  waiting = some waiting_request;
  log = [];
}

-- A refresh that fails leaves the token that authSlice starts from.
refresh_failed_example :
    initial_state (step web_keys client refresh_failed).storage ≡ initial_state client.storage
unfolding initial_state step on_refresh_failed clear_tokens get_item remove_item
refresh_failed_example = refl
