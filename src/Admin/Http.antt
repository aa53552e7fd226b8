-- ===== src/Admin/Http.antt =====
-- src/Presentation/Admin/src/lib/httpClient.ts: the interceptors of the web shop, with the keys and
-- the login page of the admin panel.
use pipeline_azure.Prelude.{ℕ, Option, String, List}
use pipeline_azure.Storage.{LocalStorage}
use pipeline_azure.Http.{Request, Client, TokenPair, Event, Keys}
use pipeline_azure.Http as shared

abbrev pub admin_keys : Keys
admin_keys = record {
  token_key = "admin_access_token";
  refresh_token_key = "admin_refresh_token";
  login_page = "/sign-in";
}

abbrev get_auth_token : LocalStorage String → Option String
get_auth_token = shared.get_auth_token admin_keys

abbrev get_refresh_token : LocalStorage String → Option String
get_refresh_token = shared.get_refresh_token admin_keys

abbrev set_auth_token : String → LocalStorage String → LocalStorage String
set_auth_token = shared.set_auth_token admin_keys

abbrev set_refresh_token : String → LocalStorage String → LocalStorage String
set_refresh_token = shared.set_refresh_token admin_keys

abbrev clear_tokens : LocalStorage String → LocalStorage String
clear_tokens = shared.clear_tokens admin_keys

abbrev intercept_request : LocalStorage String → Request → Request
intercept_request = shared.intercept_request admin_keys

abbrev on_error : Client → Option ℕ → Request → Client
on_error = shared.on_error admin_keys

abbrev on_refreshed : Client → Request → TokenPair → Client
on_refreshed = shared.on_refreshed admin_keys

abbrev on_refresh_failed : Client → Request → Client
on_refresh_failed = shared.on_refresh_failed admin_keys

abbrev pub step : Client → Event → Client
step = shared.step admin_keys

abbrev pub run : Client → List Event → Client
run = shared.run admin_keys
