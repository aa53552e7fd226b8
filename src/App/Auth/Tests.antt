-- ===== src/App/Auth/Tests.antt =====
-- authSlice on a phone whose stores never fail.
use pipeline_azure.Prelude.{
  ◌≡◌, refl, true, false, none, some, String, [], ◌∷◌, Result, ok, throw, arith, eq_iff,
}
use pipeline_azure.Storage.{
  LocalStorage, get_item, set_item, remove_item, get_item-set_item, get_item-remove_item,
}
use pipeline_azure.App.Api.{ApiError, error_text}
use pipeline_azure.App.Auth.{
  Device, LoginRequest, ApiResponse, App, reduce, initial_state, dispatch_login,
  dispatch_biometric_login, dispatch_logout, login, save_session, remove_session,
}
use pipeline_azure.Http.{Request}
use pipeline_azure.App.Auth.Sessions.{biometric_login-logout, biometric_login-refused}

-- A store that never throws.
abbrev device : Device (LocalStorage String)
device = record {
  set_item_async = λ key value s. ok (set_item key value s);
  get_item_async = λ key s. ok (get_item key s);
  delete_item_async = λ key s. ok (remove_item key s);
  get-set = λ key value s s' h. grind (arith, h, get_item-set_item key key value s, eq_iff key key);
  get-set_other =
      λ key other value s s' h d. grind (arith, h, d, get_item-set_item key other value s);
  get-delete = λ key s s' h. grind (arith, h, get_item-remove_item key key s, eq_iff key key);
  get-delete_other = λ key other s s' h d. grind (arith, h, d, get_item-remove_item key other s);
}

abbrev credentials : LoginRequest
credentials = record { email = "a@b.c"; password = "secret" }

abbrev reply : ApiResponse
reply = record {
  is_success = true;
  message = none;
  payload = record { access_token = "t1"; refresh_token = "t2" };
}

abbrev refusal : ApiError
refusal = record { response_message = some "Locked"; message = none }

abbrev accepts : LoginRequest → Result ApiError ApiResponse
accepts c = ok reply

abbrev refuses : LoginRequest → Result ApiError ApiResponse
refuses c = throw refusal

abbrev fresh : App String (LocalStorage String) (LocalStorage String)
fresh = record { state = initial_state; phone = record { async_storage = []; secure_store = [] } }

abbrev signed_in : App String (LocalStorage String) (LocalStorage String)
signed_in = record {
  state = record {
    user = none;
    token = some "t1";
    is_authenticated = true;
    loading = false;
    error = none;
  };
  phone = record {
    async_storage = ("token", "t1") ∷ ("refreshToken", "t2") ∷ [];
    secure_store = ("user_email", "a@b.c") ∷ ("user_password", "secret") ∷ [];
  };
}

login_signs_in : dispatch_login device device accepts credentials fresh ≡ signed_in
unfolding dispatch_login login save_session reduce set_item
login_signs_in = refl

biometric_login-logout_example :
    dispatch_biometric_login device device accepts (dispatch_logout device device signed_in)
    ≡ record {
      state = record {
        user = none;
        token = none;
        is_authenticated = false;
        loading = false;
        error = some "No credentials stored for biometric login";
      };
      phone = record { async_storage = []; secure_store = [] };
    }
unfolding remove_session remove_item
biometric_login-logout_example =
    biometric_login-logout device device accepts signed_in fresh.phone refl

abbrev signed_out : App String (LocalStorage String) (LocalStorage String)
signed_out = record { state = initial_state; phone = signed_in.phone }

biometric_login-refused_example :
    dispatch_biometric_login device device refuses signed_out ≡ record signed_out {
      state = record signed_out.state {
        is_authenticated = true;
        loading = false;
        error = some (error_text refusal "Login failed");
      };
    }
unfolding get_item
biometric_login-refused_example =
    biometric_login-refused device device refuses signed_out credentials refusal refl refl refl refl
      refl

abbrev request : Request
request = record { id = 1; retry = false; has_headers = true; authorization = none }
