-- ===== src/App/Signals.antt =====
-- src/Presentation/App/src/presentation/shared/hooks/useCartSignal.ts, useOrderSignal.ts and
-- useNotificationSignal.ts
-- Each hook listens to the methods of one connection, and schedules a local notification for a
-- message. A connection is a number; `on` and `off` are those of `@microsoft/signalr`, where `off` with
-- a name alone removes every handler of that name. An identifier stands as its text, and of the `data`
-- of a notification only the type and the action are kept.
pub mod Once
mod Tests
use Prim.Native.String.{◌++◌ as str_append}
use pipeline_azure.Prelude.{
  ℕ, Bool, true, false, not, ◌&&◌, Option, none, some, String, List, [], ◌∷◌, ◌++◌, nat_eq,
  string_eq, ◌==◌, filter_by, or_default, if◌then◌else◌,
}

pub data Hook : Type 0 where
  cart_signal order_signal notification_signal : Hook

pub data Message : Type 0 where
  item_added : (title : String) → Message
  item_removed : (item_id : String) → Message
  cart_cleared : Message
  cart_updated : Message
  order_created : (order_id : String) → Message
  order_status_changed : (order_id status : String) → Message
  receive_notification : (title message body : Option String) → Message

pub record Content : Type 0 where
  pub title : String
  pub body : Option String
  pub data_type : Option String
  pub action : Option String

abbrev pub method_of : Message → String
method_of (item_added title) = "ItemAdded"
method_of (item_removed id) = "ItemRemoved"
method_of cart_cleared = "CartCleared"
method_of cart_updated = "CartUpdated"
method_of (order_created id) = "OrderCreated"
method_of (order_status_changed id status) = "OrderStatusChanged"
method_of (receive_notification title message body) = "ReceiveNotification"

-- The methods that the effect of a hook listens to.
abbrev pub methods_of : Hook → List String
methods_of cart_signal = "ItemAdded" ∷ "ItemRemoved" ∷ "CartCleared" ∷ "CartUpdated" ∷ []
methods_of order_signal = "OrderCreated" ∷ "OrderStatusChanged" ∷ []
methods_of notification_signal = "ReceiveNotification" ∷ []

abbrev pub content : String → String → String → String → Content
content title body data_type action = record {
  title = title;
  body = some body;
  data_type = some data_type;
  action = some action;
}

-- `message || body`
abbrev pub first_text : Option String → Option String → Option String
first_text none body = body
first_text (some m) body = if m == "" then body else some m

-- What the handler of the message schedules.
abbrev pub scheduled : Message → List Content
scheduled (item_added title) =
    content "Item Added" (str_append title " added to your cart") "cart" "item_added" ∷ []
scheduled (item_removed id) =
    content "Item Removed" "Item removed from your cart" "cart" "item_removed" ∷ []
scheduled cart_cleared =
    content "Cart Cleared" "Your cart has been cleared" "cart" "cart_cleared" ∷ []
scheduled cart_updated = []
scheduled (order_created id) =
    content "Order Created" (str_append (str_append "Your order #" id) " has been created") "order"
      "created"
    ∷ []
scheduled (order_status_changed id status) =
    content "Order Status Updated"
      (str_append (str_append (str_append "Order #" id) " is now ") status) "order" "status_changed"
    ∷ []
scheduled (receive_notification title message body) =
    record {
      title = or_default title "Notification";
      body = first_text message body;
      data_type = none;
      action = none;
    }
    ∷ []

-- `deps` is the connection of the last render, unless the component is not there.
pub record Component : Type 0 where
  pub handlers : List (ℕ × String)
  pub deps : Option (Option ℕ)
  pub notifications : List Content

pub data Event : Type 0 where
  renders : (connection : Option ℕ) → Event
  unmounts : Event
  receives : (connection : ℕ) → Message → Event

unfoldable pub on : ℕ → String → List (ℕ × String) → List (ℕ × String)
on c name handlers = handlers ++ (c, name) ∷ []

unfoldable pub off : ℕ → String → List (ℕ × String) → List (ℕ × String)
off c name handlers = filter_by (λ h. not (h.0 == c && h.1 == name)) handlers

unfoldable pub on_all : ℕ → List String → List (ℕ × String) → List (ℕ × String)
unfolding on
on_all c [] handlers = handlers
on_all c (name ∷ names) handlers = on_all c names (on c name handlers)

unfoldable pub off_all : ℕ → List String → List (ℕ × String) → List (ℕ × String)
unfolding off
off_all c [] handlers = handlers
off_all c (name ∷ names) handlers = off_all c names (off c name handlers)

-- The effect and its clean-up, with the connection that they see.
abbrev pub run_effect : Hook → Option ℕ → List (ℕ × String) → List (ℕ × String)
run_effect hook none handlers = handlers
run_effect hook (some c) handlers = on_all c (methods_of hook) handlers

abbrev pub clean_up : Hook → Option ℕ → List (ℕ × String) → List (ℕ × String)
clean_up hook none handlers = handlers
clean_up hook (some c) handlers = off_all c (methods_of hook) handlers

-- What the handlers of the method schedule, each once.
unfoldable pub delivered : ℕ → Message → List (ℕ × String) → List Content
delivered c m [] = []
delivered c m ((d, name) ∷ handlers) =
    let rest = delivered c m handlers in
    if d == c && name == method_of m then scheduled m ++ rest else rest

abbrev pub same_connection : Option ℕ → Option ℕ → Bool
same_connection none none = true
same_connection none (some d) = false
same_connection (some c) none = false
same_connection (some c) (some d) = c == d

abbrev pub render : Hook → Option ℕ → Option (Option ℕ) → List (ℕ × String) → List (ℕ × String)
render hook connection none handlers = run_effect hook connection handlers
render hook connection (some last) handlers =
    let again = run_effect hook connection (clean_up hook last handlers) in
    if same_connection connection last then handlers else again

abbrev pub unmount : Hook → Option (Option ℕ) → List (ℕ × String) → List (ℕ × String)
unmount hook none handlers = handlers
unmount hook (some last) handlers = clean_up hook last handlers

unfoldable pub step : Hook → Event → Component → Component
unfolding on off delivered
step hook (renders connection) c = record c {
  handlers = render hook connection c.deps c.handlers;
  deps = some connection;
}
step hook unmounts c = record c { handlers = unmount hook c.deps c.handlers; deps = none }
step hook (receives connection m) c = record c {
  notifications = c.notifications ++ delivered connection m c.handlers;
}

unfoldable pub run : Hook → List Event → Component → Component
unfolding step
run hook [] c = c
run hook (e ∷ events) c = run hook events (step hook e c)

abbrev pub unmounted : Component
unmounted = record { handlers = []; deps = none; notifications = [] }
