-- ===== src/Web/SignalR/Tests.antt =====
-- signalRService on concrete connections, and its theorems at them.
use pipeline_azure.Prelude.{◌≡◌, refl, Bool, true, false, List, [], ◌∷◌}
use pipeline_azure.Web.SignalR.{
  Hub, orders, notification, Service, Step, connects, ends_connect, disconnects, subscribes,
  unsubscribes, initial, deliveries, receive, run,
}

abbrev every : Hub → Bool
every h = true

abbrev but_orders : Hub → Bool
but_orders orders = false
but_orders h = true

abbrev steps : List Step
steps =
    connects "t1"
    ∷ ends_connect every
    ∷ subscribes notification 5
    ∷ disconnects every
    ∷ subscribes notification 6
    ∷ unsubscribes notification 5
    ∷ connects "t2"
    ∷ ends_connect every
    ∷ []

sixth_is_called : receive notification (run initial steps) ≡ 6 ∷ []
unfolding run deliveries
sixth_is_called = refl

abbrev subscribed : Service
subscribed = record initial { callbacks = λ t. 5 ∷ [] }

-- Where the orders alone cannot start, the other two connections stay, beside those of the next try.
connect_again_example :
    receive notification (
      run subscribed
        (connects "t1" ∷ ends_connect but_orders ∷ connects "t2" ∷ ends_connect every ∷ []))
    ≡ 5 ∷ 5 ∷ []
unfolding run deliveries
connect_again_example = refl

-- A second connect passes the guard while the first is under way, and each message then comes twice.
connect_twice_example :
    receive notification (
      run subscribed (connects "t1" ∷ connects "t2" ∷ ends_connect every ∷ ends_connect every ∷ []))
    ≡ 5 ∷ 5 ∷ []
unfolding run deliveries
connect_twice_example = refl
