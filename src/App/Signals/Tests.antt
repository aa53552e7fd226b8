-- ===== src/App/Signals/Tests.antt =====
-- The signal hooks on concrete connections.
use pipeline_azure.Prelude.{◌≡◌, refl, none, some, List, [], ◌∷◌, ◌++◌, string_eq, nat_eq}
use pipeline_azure.App.Signals.{
  cart_signal, item_added, item_removed, cart_updated, receive_notification, notification_signal,
  scheduled, content, Event, renders, unmounts, receives, on, off, on_all, off_all, delivered, step,
  run, unmounted,
}
use pipeline_azure.App.Signals.Once.{rendered, receive-run_hook}

abbrev life : List Event
life =
    renders none
    ∷ renders (some 1)
    ∷ receives 1 (item_added "Mug")
    ∷ renders (some 1)
    ∷ receives 1 cart_updated
    ∷ renders (some 2)
    ∷ receives 1 (item_removed "7")
    ∷ receives 2 (item_removed "8")
    ∷ []

receive-run_hook_example :
    (step cart_signal
      (receives 2 (item_added "Cup"))
      (run cart_signal life unmounted)).notifications
    ≡ (run cart_signal life unmounted).notifications ++ scheduled (item_added "Cup")
unfolding rendered
receive-run_hook_example = receive-run_hook cart_signal life 2 (item_added "Cup")

life_example :
    (run cart_signal life unmounted).notifications
    ≡ content "Item Added" "Mug added to your cart" "cart" "item_added"
      ∷ content "Item Removed" "Item removed from your cart" "cart" "item_removed"
      ∷ []
unfolding run step on off on_all off_all delivered
life_example = refl

-- A notification without a title, and a message that comes after the component is gone.
notification_example :
    (run notification_signal
      (renders (some 3)
        ∷ receives 3 (receive_notification none (some "") (some "Sale"))
        ∷ unmounts
        ∷ receives 3 (receive_notification none none none)
        ∷ [])
      unmounted).notifications
    ≡ record { title = "Notification"; body = some "Sale"; data_type = none; action = none } ∷ []
unfolding run step on off on_all off_all delivered
notification_example = refl
