-- ===== src/App/Auth/Requests.antt =====
-- src/Presentation/App/src/services/api.ts and
-- src/Presentation/App/src/infrastructure/api/httpClient.ts: the interceptor that both clients of the
-- mobile app share, beside what `login` and `logout` store.
use Prim.Native.String.{◌++◌ as append}
use pipeline_azure.Prelude.{Option, none, some, String, Result, ok, throw, is_truthy, if◌then◌else◌}
use pipeline_azure.Http.{Request, bearer}
use pipeline_azure.App.Api.{ApiError}
use pipeline_azure.App.Auth.{Device, Phone, App}

module _ {A B : Type 0} (storage : Device A) (secure : Device B) where
  -- `if (token) config.headers.Authorization = …`
  abbrev pub with_token : Option String → Request → Request
  with_token none r = r
  with_token (some t) r = if is_truthy t then record r { authorization = some (bearer t) } else r

  abbrev pub carry : Result ApiError (Option String) → Request → Result ApiError Request
  carry (throw e) r = throw e
  carry (ok token) r = ok (with_token token r)

  unfoldable pub intercept_request : Phone A B → Request → Result ApiError Request
  intercept_request p r = carry (storage.get_item_async "token" p.async_storage) r
