-- ===== src/App/Middleware/Dispatched.antt =====
-- offlineMiddleware: what it does for the actions that the app dispatches.
use pipeline_azure.Prelude.{◌≡◌, refl, arith, ◌∙◌, ap, List, [], ◌∷◌}
use pipeline_azure.Json.{Json}
use pipeline_azure.App.Cart.{
  Action, clear_cart, fetch_pending, add_pending, update_pending, remove_pending,
  remove_all_pending, fetch_fulfilled, add_fulfilled, update_fulfilled, remove_fulfilled,
  remove_all_fulfilled, fetch_rejected, add_rejected, update_rejected, remove_rejected,
  remove_all_rejected,
}
use pipeline_azure.App.Database.{World, Session}
use pipeline_azure.App.Storage.{Payload}
use pipeline_azure.App.Storage.Queue.{Change, clears, perform}
use pipeline_azure.App.Storage.Log.{perform_all}
use pipeline_azure.App.Middleware.{
  dispatch_all, offline_middleware, redux_action, store_offline, intercepts,
}

module _ {Number : Type 0} where
  -- The change of the offline cart that an action stands for in the middleware.
  abbrev pub stored : Action Number → List (Change Number) → List (Change Number)
  stored clear_cart changes = clears ∷ changes
  stored _ changes = changes

  abbrev pub all_stored : List (Action Number) → List (Change Number)
  all_stored [] = []
  all_stored (a ∷ actions) = stored a (all_stored actions)

module _ {Number Text : Type 0} (json : Json Text (Payload Number)) (w : World) where
  offline_middleware-redux_action :
      (a : Action Number) (s : Session Number Text)
      → offline_middleware json w (redux_action a) s ≡ perform_all json w (stored a []) s
  unfolding offline_middleware redux_action store_offline intercepts perform_all perform
  offline_middleware-redux_action clear_cart s = refl
  offline_middleware-redux_action fetch_pending s = refl
  offline_middleware-redux_action (fetch_fulfilled items) s = refl
  offline_middleware-redux_action (fetch_rejected r) s = refl
  offline_middleware-redux_action add_pending s = refl
  offline_middleware-redux_action (add_fulfilled i) s = refl
  offline_middleware-redux_action (add_rejected r) s = refl
  offline_middleware-redux_action update_pending s = refl
  offline_middleware-redux_action (update_fulfilled u) s = refl
  offline_middleware-redux_action (update_rejected r) s = refl
  offline_middleware-redux_action remove_pending s = refl
  offline_middleware-redux_action (remove_fulfilled id) s = refl
  offline_middleware-redux_action (remove_rejected r) s = refl
  offline_middleware-redux_action remove_all_pending s = refl
  offline_middleware-redux_action remove_all_fulfilled s = refl
  offline_middleware-redux_action (remove_all_rejected r) s = refl

  perform_all-stored :
      (a : Action Number) (changes : List (Change Number)) (s : Session Number Text)
      → perform_all json w changes (perform_all json w (stored a []) s)
        ≡ perform_all json w (stored a changes) s
  unfolding perform_all
  perform_all-stored a changes s = ground arith

  -- Of all the actions of the cart, the middleware stores `clearCart` alone: the database after any
  -- of them is the one that as many clears of the offline cart leave, and no item that is added,
  -- changed or removed, nor a removal of all, reaches the offline cart or its queue.
  pub dispatch_all-stored :
      (actions : List (Action Number)) (s : Session Number Text)
      → dispatch_all json w actions s ≡ perform_all json w (all_stored actions) s
  unfolding dispatch_all perform_all
  dispatch_all-stored [] s = refl
  dispatch_all-stored (a ∷ actions) s =
      ap (dispatch_all json w actions) (offline_middleware-redux_action a s)
      ∙ dispatch_all-stored actions _
      ∙ perform_all-stored a (all_stored actions) s
