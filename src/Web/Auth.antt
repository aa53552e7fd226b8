-- ===== src/Web/Auth.antt =====
-- src/Presentation/Web/src/presentation/store/slices/authSlice.ts, with `localStorage`.
mod Reload
mod Tests
use pipeline_azure.Prelude.{
  Bool, true, false, Option, none, some, String, List, [], ◌∷◌, is_truthy?,
}
use pipeline_azure.Storage.{LocalStorage, get_item, set_item, remove_item}

pub record User : Type 0 where
  pub id : String
  pub email : String
  pub roles : List String

pub record AuthState : Type 0 where
  pub user : Option User
  pub token : Option String
  pub is_authenticated : Bool
  pub is_loading : Bool

pub record Page : Type 0 where
  pub state : AuthState
  pub storage : LocalStorage String

pub data Action : Type 0 where
  set_credentials : User → (token : String) → Action
  logout : Action
  set_loading : Bool → Action

unfoldable pub initial_state : LocalStorage String → AuthState
initial_state storage = record {
  user = none;
  token = get_item "token" storage;
  is_authenticated = is_truthy? (get_item "token" storage);
  is_loading = false;
}

unfoldable pub reduce : Page → Action → Page
reduce p (set_credentials user token) = record {
  state = record p.state { user = some user; token = some token; is_authenticated = true };
  storage = set_item "token" token p.storage;
}
reduce p logout = record {
  state = record p.state { user = none; token = none; is_authenticated = false };
  storage = remove_item "token" p.storage;
}
reduce p (set_loading b) = record p { state = record p.state { is_loading = b } }

unfoldable pub run : Page → List Action → Page
unfolding reduce
run p [] = p
run p (a ∷ actions) = run (reduce p a) actions
