-- ===== src/App/Middleware/Tests.antt =====
-- offlineMiddleware on an added item, a cleared cart and an action under a name that it knows.
use pipeline_azure.Prelude.{ℕ, ◌≡◌, refl, true, false, Option, none, some, [], ◌∷◌}
use pipeline_azure.Json.{plain_json}
use pipeline_azure.App.Cart.{CartItem, clear_cart, add_pending, add_fulfilled}
use pipeline_azure.App.Database.{World, Session, execute}
use pipeline_azure.App.Storage.{Payload, add_cart_item}
use pipeline_azure.App.Storage.Log.{perform_all}
use pipeline_azure.App.Storage.Queue.{clears}
use pipeline_azure.App.Middleware.{offline_middleware, dispatch_all, intercepts}
use pipeline_azure.App.Middleware.Dispatched.{dispatch_all-stored}

abbrev steady : World
steady = record { fails = λ _. false; stamp = λ n. n }

abbrev mug : CartItem ℕ
mug = record {
  id = 4;
  title = "Mug";
  price = 9;
  description = "";
  category = "";
  image = "";
  rating = record { rate = 5; count = 1 };
  quantity = 2;
}

abbrev start : Session ℕ (Option (Payload ℕ))
start = record {
  db = some (record { products = []; cart_items = []; offline_queue = []; next_id = 1 });
  moment = 0;
}

intercepts_test :
    (intercepts "cart/clearCart" ≡ true)
    × (intercepts "auth/logout" ≡ false)
    × (intercepts "cart/fetchCart/fulfilled" ≡ false)
unfolding intercepts
intercepts_test = (refl, refl, refl)

-- A plain action of the name that the middleware tests would be stored.
plain_action_test :
    (offline_middleware plain_json steady
      (record { type = "cart/addToCart"; item = some mug; update = none; id = some 4 })
      start).moment
    ≡ 2
unfolding offline_middleware execute add_cart_item
plain_action_test = refl

dispatch_all-stored_example :
    dispatch_all plain_json steady (add_pending ∷ add_fulfilled mug ∷ clear_cart ∷ []) start
    ≡ perform_all plain_json steady (clears ∷ []) start
dispatch_all-stored_example =
    dispatch_all-stored plain_json steady (add_pending ∷ add_fulfilled mug ∷ clear_cart ∷ []) start
