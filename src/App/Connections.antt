-- ===== src/App/Connections.antt =====
-- src/Presentation/App/src/presentation/shared/hooks/useSignalRConnection.ts
-- The hook from its mount to its unmount. `@microsoft/signalr`, AsyncStorage and the notifications
-- of `expo` are not in the repository: an `Environment` holds what they answer. A connection runs
-- from its `start()` that succeeds to its `stop()`. The component stays until its set-up is done.
pub mod Leaked
mod Tests
use pipeline_azure.Prelude.{
  ℕ, Bool, true, false, not, ◌&&◌, ◌||◌, Option, none, some, String, List, [], ◌∷◌, ◌++◌, string_eq,
  ◌==◌, is_truthy, Result, ok, throw, some_by, filter_by, if◌then◌else◌,
}

pub data Hub : Type 0 where
  notifications cart orders : Hub

abbrev pub hub_same : Hub → Hub → Bool
hub_same notifications notifications = true
hub_same cart cart = true
hub_same orders orders = true
hub_same _ _ = false

-- `starts` are the connections whose `start()` succeeds, `invoked` whether
-- `invoke('RegisterPushToken', …)` does.
pub record Environment : Type 0 where
  pub token : Result (Unit {0}) (Option String)
  pub is_android : Bool
  pub channel_set : Bool
  pub is_device : Bool
  pub existing_status : Result (Unit {0}) String
  pub requested_status : Result (Unit {0}) String
  pub push_token : Result (Unit {0}) String
  pub starts : Hub → Bool
  pub invoked : Bool

-- The state of the component, its two refs, and what runs in the world outside: the connections,
-- the subscriptions to notifications, and the alerts that were shown.
pub record Hook : Type 0 where
  pub notification_connection : Option Hub
  pub cart_connection : Option Hub
  pub order_connection : Option Hub
  pub is_connected : Bool
  pub expo_push_token : String
  pub listening : Bool
  pub running : List Hub
  pub alerts : List String

abbrev pub mounted : Hook
mounted = record {
  notification_connection = none;
  cart_connection = none;
  order_connection = none;
  is_connected = false;
  expo_push_token = "";
  listening = false;
  running = [];
  alerts = [];
}

abbrev pub failed_text : String
failed_text = "Failed to get push token for push notification!"

-- The permission that counts: the one that is there, or the one that is asked for.
abbrev pub final_status : Environment → Result (Unit {0}) String
final_status e = elim e.existing_status [
  | throw x ↦ throw x
  | ok s ↦ if s == "granted" then ok s else e.requested_status
]

-- The push token for a permission, with the alerts that are shown.
abbrev pub token_for :
    Environment → Result (Unit {0}) String → Result (Unit {0}) (Option String) × List String
token_for e (throw x) = (throw x, [])
token_for e (ok s) =
    if s == "granted"
    then (elim e.push_token [ throw x ↦ throw x | ok t ↦ ok (some t) ], [])
    else (ok none, failed_text ∷ [])

-- `registerForPushNotificationsAsync`
unfoldable pub register_for_push_notifications_async :
    Environment → Result (Unit {0}) (Option String) × List String
register_for_push_notifications_async e =
    if e.is_android && not e.channel_set
    then (throw tt, [])
    else if e.is_device
    then token_for e (final_status e)
    else (ok none, [])

abbrev pub all_hubs : List Hub
all_hubs = notifications ∷ cart ∷ orders ∷ []

-- `Promise.all` of the three starts: each that can start does, and all must.
abbrev pub started : Environment → List Hub
started e = filter_by e.starts all_hubs

abbrev pub all_start : Environment → Bool
all_start e = e.starts notifications && e.starts cart && e.starts orders

-- `if (pushToken) setExpoPushToken(pushToken)`
abbrev pub with_push_token : Option String → Hook → Hook
with_push_token none h = h
with_push_token (some t) h = if is_truthy t then record h { expo_push_token = t } else h

-- `if (pushToken) await notifConn.invoke(…)`: whether it throws.
abbrev pub invoke_fails : Environment → Option String → Bool
invoke_fails e none = false
invoke_fails e (some t) = is_truthy t && not e.invoked

-- The rest of `setupConnections`, from the creation of the connections on.
abbrev pub open_connections : Environment → Option String → Hook → Hook
open_connections e push h =
    let h' = record h { running = h.running ++ started e } in
    if not (all_start e) || invoke_fails e push
    then record h' { is_connected = false }
    else record h' {
      is_connected = true;
      notification_connection = some notifications;
      cart_connection = some cart;
      order_connection = some orders;
      listening = true;
    }

-- After the login token was found.
abbrev pub register_and_open :
    Environment → Result (Unit {0}) (Option String) × List String → Hook → Hook
register_and_open e (throw x, shown) h = record h {
  is_connected = false;
  alerts = h.alerts ++ shown;
}
register_and_open e (ok push, shown) h =
    open_connections e push (with_push_token push (record h { alerts = h.alerts ++ shown }))

-- `setupConnections`, which runs once, when the component is mounted.
unfoldable pub setup_connections : Environment → Hook → Hook
unfolding register_for_push_notifications_async
setup_connections e h = elim e.token [
  | throw x ↦ record h { is_connected = false }
  | ok none ↦ h
  | ok (some token) ↦
      if is_truthy token then register_and_open e (register_for_push_notifications_async e) h else h
]

-- `connection?.stop()`
abbrev pub stop : Option Hub → List Hub → List Hub
stop none running = running
stop (some hub) running = filter_by (λ other. not (hub_same other hub)) running

-- The clean-up. Its effect has no dependencies, so that it holds the connections of the first
-- render; the refs it reads as they are.
unfoldable pub clean_up : Hook → Hook → Hook
clean_up first_render h = record h {
  running =
      stop first_render.order_connection
        (stop first_render.cart_connection (stop first_render.notification_connection h.running));
  listening = false;
}

-- From the mount to the unmount.
unfoldable pub life : Environment → Hook
unfolding setup_connections clean_up
life e = clean_up mounted (setup_connections e mounted)
