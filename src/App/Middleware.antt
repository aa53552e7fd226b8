-- ===== src/App/Middleware.antt =====
-- src/Presentation/App/src/presentation/store/middleware/offlineMiddleware.ts
-- The middleware stands behind the one of the thunks, so that it sees the actions of cartSlice that
-- a thunk dispatches and no thunk. Redux names them: `createSlice` by slice and reducer,
-- `createAsyncThunk` by prefix and phase.
pub mod Dispatched
mod Tests
use text.Mathlib.Text.{starts_with, find?, ◌==◌ as str_eq}
use pipeline_azure.Prelude.{
  ℕ, Bool, true, false, not, ◌&&◌, ◌||◌, Option, none, some, String, List, [], ◌∷◌, if◌then◌else◌,
}
use pipeline_azure.Json.{Json}
use pipeline_azure.App.Cart.{
  CartItem, Update, Action, clear_cart, fetch_pending, add_pending, update_pending, remove_pending,
  remove_all_pending, fetch_fulfilled, add_fulfilled, update_fulfilled, remove_fulfilled,
  remove_all_fulfilled, fetch_rejected, add_rejected, update_rejected, remove_rejected,
  remove_all_rejected,
}
use pipeline_azure.App.Database.{World, Session}
use pipeline_azure.App.Storage.{
  Payload, add_cart_item, update_cart_item, remove_cart_item, clear_cart_items,
}

-- An action of Redux. `item`, `update` and `id` are what its payload is as an item, as
-- `{ cartId, quantity }` and as `{ id }`. Without a payload each is `none`: reading it throws.
pub record ReduxAction (Number : Type 0) : Type 0 where
  pub type : String
  pub item : Option (CartItem Number)
  pub update : Option Update
  pub id : Option ℕ

-- `s.includes(t)`
abbrev pub includes : String → String → Bool
includes s t = elim (find? s t) [ none ↦ false | some _ ↦ true ]

-- Whether the middleware looks at an action of this type.
unfoldable pub intercepts : String → Bool
intercepts type =
    starts_with type "cart/" && not (includes type "fulfilled") && not (includes type "rejected")

module _ {Number : Type 0} where
  abbrev pub bare : String → ReduxAction Number
  bare type = record { type = type; item = none; update = none; id = none }

  -- The actions of cartSlice as Redux dispatches them.
  unfoldable pub redux_action : Action Number → ReduxAction Number
  redux_action clear_cart = bare "cart/clearCart"
  redux_action fetch_pending = bare "cart/fetchCart/pending"
  redux_action (fetch_fulfilled items) = bare "cart/fetchCart/fulfilled"
  redux_action (fetch_rejected r) = bare "cart/fetchCart/rejected"
  redux_action add_pending = bare "cart/addCartItemAsync/pending"
  redux_action (add_fulfilled i) = record (bare "cart/addCartItemAsync/fulfilled") {
    item = some i;
    id = some i.id;
  }
  redux_action (add_rejected r) = bare "cart/addCartItemAsync/rejected"
  redux_action update_pending = bare "cart/updateCartItem/pending"
  redux_action (update_fulfilled u) = record (bare "cart/updateCartItem/fulfilled") {
    update = some u;
  }
  redux_action (update_rejected r) = bare "cart/updateCartItem/rejected"
  redux_action remove_pending = bare "cart/removeCartItem/pending"
  redux_action (remove_fulfilled id) = record (bare "cart/removeCartItem/fulfilled") {
    id = some id;
  }
  redux_action (remove_rejected r) = bare "cart/removeCartItem/rejected"
  redux_action remove_all_pending = bare "cart/removeAllCartItems/pending"
  redux_action remove_all_fulfilled = bare "cart/removeAllCartItems/fulfilled"
  redux_action (remove_all_rejected r) = bare "cart/removeAllCartItems/rejected"

module _ {Number Text : Type 0} (json : Json Text (Payload Number)) (w : World) where
  abbrev on_some :
      {A : Type 0}
      → (A → Session Number Text → Session Number Text)
      → Option A
      → Session Number Text
      → Session Number Text
  on_some f none s = s
  on_some f (some a) s = f a s

  -- What is done for an action that it looks at; whatever throws is caught.
  unfoldable pub store_offline : ReduxAction Number → Session Number Text → Session Number Text
  store_offline a s =
      if str_eq a.type "cart/addCartItemAsync" || str_eq a.type "cart/addToCart"
      then on_some (λ i s. (add_cart_item json w i s).1) a.item s
      else if str_eq a.type "cart/updateCartItem"
      then on_some (λ u s. (update_cart_item json w u.cart_id u.quantity s).1) a.update s
      else if str_eq a.type "cart/removeCartItem"
      then on_some (λ id s. (remove_cart_item json w id s).1) a.id s
      else if str_eq a.type "cart/clearCart"
      then (clear_cart_items json w s).1
      else s

  -- What the middleware leaves of the database; the action goes on to the reducers in any case.
  unfoldable pub offline_middleware : ReduxAction Number → Session Number Text → Session Number Text
  unfolding intercepts store_offline
  offline_middleware a s = if intercepts a.type then store_offline a s else s

  -- The actions one after the other.
  unfoldable pub dispatch_all : List (Action Number) → Session Number Text → Session Number Text
  unfolding offline_middleware redux_action
  dispatch_all [] s = s
  dispatch_all (a ∷ actions) s = dispatch_all actions (offline_middleware (redux_action a) s)
