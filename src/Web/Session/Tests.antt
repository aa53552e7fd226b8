-- ===== src/Web/Session/Tests.antt =====
-- The web shop: a registration, and what the shop then takes the user for.
use pipeline_azure.Prelude.{◌≡◌, refl, true, false, none, some, List, [], ◌∷◌, ok, throw}
use pipeline_azure.Http.{get_auth_token}
use pipeline_azure.Storage.{get_item}
use pipeline_azure.Web.Session.{
  AuthResult, untouched, cleared, renewed, intercept, renew, Site, Event, logs_in, registers,
  adds_to_cart, please_login, register, add_to_cart, service_register, run,
}
use pipeline_azure.Web.Session.Tokens.{token_of, slice_of, tokens-run}

abbrev guest : Site
guest = record {
  page = record {
    state = record { user = none; token = none; is_authenticated = false; is_loading = false };
    storage = [];
  };
  location = "/";
  toasts = [];
}

abbrev result : AuthResult
result = record {
  access_token = "aa.bb";
  refresh_token = "cc";
  user = record { id = "7"; email = "a@b.c"; roles = [] };
}

abbrev registered : Site
registered =
    register untouched (ok (record { succeeded = true; errors = none })) untouched
      (ok (some result)) guest

-- Right after a registration an addition to the cart asks the user to log in.
asked_again_test :
    (add_to_cart untouched (ok tt) registered).toasts
    ≡ "Registration successful" ∷ please_login ∷ []
unfolding add_to_cart register service_register intercept renew
asked_again_test = refl

errors_test :
    (register untouched
      (ok (record { succeeded = false; errors = some ("Email" ∷ "Password" ∷ []) }))
      untouched
      (throw "")
      guest).toasts
    ≡ "Email, Password" ∷ []
unfolding register service_register intercept renew
errors_test = refl

abbrev history : List Event
history =
    logs_in untouched (throw "Network Error")
    ∷ registers cleared (ok (record { succeeded = true; errors = none })) untouched
        (ok (some result))
    ∷ logs_in untouched (ok (some result))
    ∷ adds_to_cart (renewed "dd.ee" "ff") (ok tt)
    ∷ []

tokens-run_example :
    (token_of (run history guest) ≡ some "dd.ee")
    × (slice_of (run history guest) ≡ (some "aa.bb", true))
unfolding get_auth_token get_item
tokens-run_example = tokens-run history guest
