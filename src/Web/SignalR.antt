-- ===== src/Web/SignalR.antt =====
-- src/Presentation/Web/src/services/signalRService.ts
-- `@microsoft/signalr` is not in the repository: whether a connection starts, stops or takes a call
-- is an argument. A connect is two steps, up to its `await` and after it, and others may come between;
-- a connection counts as running when all starts of its connect have come to an end. A disconnect is
-- over before the next step. A callback is a number, one for each function object.
mod Single
mod Tests
use pipeline_azure.Prelude.{
  ℕ, ◌+◌, Bool, true, false, not, ◌&&◌, Option, none, some, String, List, [], ◌∷◌, ◌++◌, nat_eq,
  ◌==◌, filter_by, if◌then◌else◌,
}

pub data Hub : Type 0 where
  notifications cart orders : Hub

-- A connection is known by the number of its creation.
pub record Connection : Type 0 where
  pub hub : Hub
  pub number : ℕ
  pub token : String

pub data Topic : Type 0 where
  notification item_added item_removed cart_cleared cart_updated : Topic
  order_created order_status_changed : Topic

-- The connection that the handler of a topic is set on.
abbrev pub hub_of : Topic → Hub
hub_of notification = notifications
hub_of item_added = cart
hub_of item_removed = cart
hub_of cart_cleared = cart
hub_of cart_updated = cart
hub_of order_created = orders
hub_of order_status_changed = orders

abbrev pub same_hub : Hub → Hub → Bool
same_hub notifications notifications = true
same_hub cart cart = true
same_hub orders orders = true
same_hub _ _ = false

abbrev topic_number : Topic → ℕ
topic_number notification = 0
topic_number item_added = 1
topic_number item_removed = 2
topic_number cart_cleared = 3
topic_number cart_updated = 4
topic_number order_created = 5
topic_number order_status_changed = 6

-- `connections` are the three fields, all set or none; `started` are the connections that run,
-- also those that no field holds any more; `connecting` are those of the connects under way, oldest
-- first; `callbacks` has one list for each topic.
pub record Service : Type 0 where
  pub connections : Option (Connection × Connection × Connection)
  pub is_connected : Bool
  pub connecting : List (Connection × Connection × Connection)
  pub started : List Connection
  pub created : ℕ
  pub callbacks : Topic → List ℕ

abbrev pub initial : Service
initial = record {
  connections = none;
  is_connected = false;
  connecting = [];
  started = [];
  created = 0;
  callbacks = λ t. [];
}

abbrev pub set_callbacks : Topic → List ℕ → (Topic → List ℕ) → Topic → List ℕ
set_callbacks t list all u = if topic_number t == topic_number u then list else all u

-- `start` of one connection.
abbrev pub start : (Hub → Bool) → Connection → List Connection
start starts c = if starts c.hub then c ∷ [] else []

abbrev pub all_hubs : (Hub → Bool) → Bool
all_hubs p = p notifications && p cart && p orders

-- `connect` up to its `await`: the guard, and three new connections that are told to start.
unfoldable pub connect : String → Service → Service
connect token s =
    if s.is_connected
    then s
    else (let a : Connection = record { hub = notifications; number = s.created; token = token } in
        let b : Connection = record { hub = cart; number = s.created + 1; token = token } in
        let c : Connection = record { hub = orders; number = s.created + 2; token = token } in
        record s {
          connections = some (a, b, c);
          connecting = s.connecting ++ (a, b, c) ∷ [];
          created = s.created + 3;
        })

-- The rest of the oldest `connect` under way. `false` stands for the error that is thrown. All three
-- starts are made, though one may fail.
abbrev connected_to :
    (Hub → Bool) → List (Connection × Connection × Connection) → Service → Bool × Service
connected_to starts [] s = (true, s)
connected_to starts ((a, b, c) ∷ connecting) s = (
  all_hubs starts,
  record s {
    is_connected = all_hubs starts;
    connecting = connecting;
    started = s.started ++ start starts a ++ start starts b ++ start starts c;
  },
)

unfoldable pub connected : (Hub → Bool) → Service → Bool × Service
connected starts s = connected_to starts s.connecting s

-- `stop` of the connection with a number, if it stops.
abbrev pub stop : (Hub → Bool) → Connection → List Connection → List Connection
stop stops c started =
    if stops c.hub then filter_by (λ d. not (d.number == c.number)) started else started

abbrev pub stop_all :
    (Hub → Bool) → Option (Connection × Connection × Connection) → List Connection → List Connection
stop_all stops none started = started
stop_all stops (some (a, b, c)) started = stop stops c (stop stops b (stop stops a started))

-- An error of a `stop` is caught, and the service stays connected.
unfoldable pub disconnect : (Hub → Bool) → Service → Service
disconnect stops s =
    if s.is_connected
    then record s {
      started = stop_all stops s.connections s.started;
      is_connected = not (all_hubs stops);
    }
    else s

-- `onNotification` and the six methods like it, and the function that each returns.
unfoldable pub subscribe : Topic → ℕ → Service → Service
subscribe t callback s = record s {
  callbacks = set_callbacks t (s.callbacks t ++ callback ∷ []) s.callbacks;
}

unfoldable pub unsubscribe : Topic → ℕ → Service → Service
unsubscribe t callback s = record s {
  callbacks = set_callbacks t (filter_by (λ f. not (f == callback)) (s.callbacks t)) s.callbacks;
}

-- `sendTestNotification`, `requestCartSync`, `requestOrderStatus`: `accepted` is what the hub says.
unfoldable pub invoke : Bool → Service → Bool
invoke accepted s = elim s.connections [ none ↦ false | some cs ↦ accepted ]

-- The calls of callbacks when the server sends a message: each connection that runs has the handler.
unfoldable pub deliveries : Topic → List Connection → (Topic → List ℕ) → List ℕ
deliveries t [] callbacks = []
deliveries t (c ∷ started) callbacks =
    (if same_hub c.hub (hub_of t) then callbacks t else []) ++ deliveries t started callbacks

abbrev pub receive : Topic → Service → List ℕ
receive t s = deliveries t s.started s.callbacks

pub data Step : Type 0 where
  connects : String → Step
  ends_connect : (Hub → Bool) → Step
  disconnects : (Hub → Bool) → Step
  subscribes unsubscribes : Topic → ℕ → Step

unfoldable pub step : Service → Step → Service
unfolding connect connected disconnect subscribe unsubscribe
step s (connects token) = connect token s
step s (ends_connect starts) = (connected starts s).1
step s (disconnects stops) = disconnect stops s
step s (subscribes t callback) = subscribe t callback s
step s (unsubscribes t callback) = unsubscribe t callback s

unfoldable pub run : Service → List Step → Service
unfolding step
run s [] = s
run s (e ∷ steps) = run (step s e) steps
