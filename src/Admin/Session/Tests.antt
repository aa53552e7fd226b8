-- ===== src/Admin/Session/Tests.antt =====
-- The admin panel: a login, and the two ways to log out of it.
use pipeline_azure.Prelude.{◌≡◌, refl, true, false, none, some, List, [], ◌∷◌}
use pipeline_azure.Http.{Request, authorize, intercept_request}
use pipeline_azure.Admin.Http.{admin_keys}
use pipeline_azure.Admin.Session.{
  Panel, AuthResponse, no_tokens, on_login, log_out, sign_out, before_load, initial_store,
}
use pipeline_azure.Admin.Session.Codec.{marked_json}
use pipeline_azure.Admin.Session.Guard.{before_load-sign_out}
use pipeline_azure.Admin.Session.Kept.{Kept}
use pipeline_azure.Admin.Session.Reload.{
  Event, logs_in, signs_out, sets_access_token, query_fails, run, initial_store-run,
}
use pipeline_azure.Admin.Cookies.{cookie_value, get_cookie}

abbrev panel : Panel
panel = record { local = []; cookies = []; store = no_tokens; location = "/" }

abbrev answer : AuthResponse
answer = record { access_token = some "aa.bb"; refresh_token = some "cc" }

abbrev request : Request
request = record { id = 1; retry = false; has_headers = true; authorization = none }

before_load-sign_out_example :
    let p' = on_login marked_json answer "a@b.c" 7 panel in
    (before_load p' ≡ true)
    × (before_load (log_out p') ≡ false)
    × (intercept_request admin_keys (log_out p').local request ≡ request)
    × ((sign_out p').store ≡ no_tokens)
    × (before_load (sign_out p') ≡ true)
    × (intercept_request admin_keys (sign_out p').local request ≡ authorize "aa.bb" request)
before_load-sign_out_example =
    before_load-sign_out marked_json "aa.bb" "cc" "a@b.c" 7 panel request refl refl

abbrev history : List Event
history =
    logs_in answer "a@b.c" 7 ∷ signs_out ∷ sets_access_token "dd" ∷ query_fails true (some 500) ∷ []

panel-Kept : Kept marked_json panel
unfolding get_cookie
panel-Kept = record { clean = tt; access = refl; refresh = refl }

initial_store-run_example :
    let p' = run marked_json history panel in
    initial_store marked_json p'.cookies ≡ some (record p'.store { user = none })
unfolding cookie_value
initial_store-run_example =
    initial_store-run marked_json history panel ((refl, refl), (tt, (refl, (tt, tt)))) panel-Kept
