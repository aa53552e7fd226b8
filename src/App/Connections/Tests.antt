-- ===== src/App/Connections/Tests.antt =====
-- useSignalRConnection on a phone whose push token the server does not register.
use pipeline_azure.Prelude.{◌≡◌, refl, true, false, none, some, [], ◌∷◌, ok}
use pipeline_azure.App.Connections.{
  Environment, mounted, register_for_push_notifications_async, failed_text, setup_connections,
}

abbrev phone : Environment
phone = record {
  token = ok (some "aa.bb");
  is_android = true;
  channel_set = true;
  is_device = true;
  existing_status = ok "undetermined";
  requested_status = ok "granted";
  push_token = ok "ExponentPushToken[1]";
  starts = λ hub. true;
  invoked = false;
}

refused_test :
    (setup_connections (record phone { requested_status = ok "denied" }) mounted).alerts
    ≡ failed_text ∷ []
unfolding setup_connections register_for_push_notifications_async
refused_test = refl

nobody_test : setup_connections (record phone { token = ok none }) mounted ≡ mounted
unfolding setup_connections
nobody_test = refl
