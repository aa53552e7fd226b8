-- ===== src/Web/Auth/Reload.antt =====
-- authSlice of the web shop: what a reload of the page finds, also after the HTTP client gave up.
use pipeline_azure.Prelude.{◌≡◌, refl, ap, ◌∙◌, true, List, [], ◌∷◌, All, is_truthy, is_truthy?}
use pipeline_azure.Storage.{get_item, get_item-set_item, get_item-remove_item}
use pipeline_azure.Web.Auth.{
  Page, Action, set_credentials, logout, set_loading, initial_state, reduce, run,
}

-- The credentials of an action have a token.
unfoldable pub HasToken : Action → Type 0
HasToken (set_credentials user token) = is_truthy token ≡ true
HasToken a = Unit

pub record IsPersisted (p : Page) : Type 0 where
  pub token : get_item "token" p.storage ≡ p.state.token
  pub authenticated : is_truthy? p.state.token ≡ p.state.is_authenticated

reduce-IsPersisted : (p : Page) (a : Action) → HasToken a → IsPersisted p → IsPersisted (reduce p a)
unfolding reduce HasToken
reduce-IsPersisted p (set_credentials user token) h s = record {
  token = get_item-set_item "token" "token" token p.storage;
  authenticated = h;
}
reduce-IsPersisted p logout h s = record {
  token = get_item-remove_item "token" "token" p.storage;
  authenticated = refl;
}
reduce-IsPersisted p (set_loading b) h s = record {
  token = s.token;
  authenticated = s.authenticated;
}

run-IsPersisted :
    (p : Page) (actions : List Action)
    → All HasToken actions
    → IsPersisted p
    → IsPersisted (run p actions)
unfolding run
run-IsPersisted p [] h s = s
run-IsPersisted p (a ∷ actions) (h, hs) s =
    run-IsPersisted (reduce p a) actions hs (reduce-IsPersisted p a h s)

-- From a page whose token is the stored one, with somebody logged in just if it is not blank: after
-- any actions whose credentials have a token that is not blank, a reload finds the token of the page,
-- and somebody logged in just if the page has.
session-run :
    (p : Page) (actions : List Action)
    → All HasToken actions
    → IsPersisted p
    → ((initial_state (run p actions).storage).token ≡ (run p actions).state.token)
      × ((initial_state (run p actions).storage).is_authenticated
          ≡ (run p actions).state.is_authenticated)
unfolding initial_state
session-run p actions h s =
    let t = run-IsPersisted p actions h s in (t.token, ap is_truthy? t.token ∙ t.authenticated)
