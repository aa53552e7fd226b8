-- ===== src/App/Cart.antt =====
-- src/Presentation/App/src/presentation/store/slices/cartSlice.ts
-- Identifiers and quantities are natural numbers; prices and rates are never computed with, so
-- their type is a parameter. Each thunk is the list of actions that it dispatches, given the
-- answer of its HTTP call.
pub mod Lookup
pub mod Calls
mod Tests
use pipeline_azure.Prelude.{
  ℕ, ◌≡◌, Bool, true, false, not, Option, none, some, String, List, [], ◌∷◌, ◌++◌, nat_eq, ◌==◌,
  filter_by, update_first, Result, ok, throw, if◌then◌else◌,
}
use pipeline_azure.App.Api.{
  ApiError, error_text, Rejection, reject_with_value, uncaught, rejection_text,
}

pub record Rating (Number : Type 0) : Type 0 where
  pub rate : Number
  pub count : ℕ

pub record CartItem (Number : Type 0) : Type 0 where
  pub id : ℕ
  pub title : String
  pub price : Number
  pub description : String
  pub category : String
  pub image : String
  pub rating : Rating Number
  pub quantity : ℕ

pub record CartState (Number : Type 0) : Type 0 where
  pub cart : Option (List (CartItem Number))
  pub loading : Bool
  pub error : Option String

abbrev pub initial_state : {Number : Type 0} → CartState Number
initial_state = record { cart = none; loading = false; error = none }

pub record Update : Type 0 where
  pub cart_id : ℕ
  pub quantity : ℕ

pub data Action (Number : Type 0) : Type 0 where
  clear_cart : Action Number
  fetch_pending add_pending update_pending remove_pending remove_all_pending : Action Number
  fetch_fulfilled : List (CartItem Number) → Action Number
  add_fulfilled : CartItem Number → Action Number
  update_fulfilled : Update → Action Number
  remove_fulfilled : ℕ → Action Number
  remove_all_fulfilled : Action Number
  fetch_rejected add_rejected update_rejected remove_rejected remove_all_rejected :
      Rejection → Action Number

-- `state.cart ? [...state.cart, item] : [item]`
abbrev push_item :
    {Number : Type 0} → Option (List (CartItem Number)) → CartItem Number → List (CartItem Number)
push_item none item = item ∷ []
push_item (some items) item = items ++ item ∷ []

abbrev pub with_quantity : {Number : Type 0} → ℕ → CartItem Number → CartItem Number
with_quantity q item = record item { quantity = q }

-- The first item with the id gets the quantity.
abbrev pub set_quantity :
    {Number : Type 0} → Update → List (CartItem Number) → List (CartItem Number)
set_quantity u = update_first (λ item. item.id == u.cart_id) (with_quantity u.quantity)

abbrev pub without_item : {Number : Type 0} → ℕ → List (CartItem Number) → List (CartItem Number)
without_item id = filter_by λ item. not (item.id == id)

-- `if (state.cart) state.cart = f(state.cart)`
abbrev on_cart : {A : Type 0} → (A → A) → Option A → Option A
on_cart f none = none
on_cart f (some a) = some (f a)

unfoldable pub reduce : {Number : Type 0} → CartState Number → Action Number → CartState Number
reduce s clear_cart = record s { cart = none; error = none }
reduce s fetch_pending = record s { loading = true; error = none }
reduce s (fetch_fulfilled items) = record s { loading = false; cart = some items }
reduce s (fetch_rejected r) = record s {
  loading = false;
  error = some (rejection_text r "Failed to fetch cart");
}
reduce s add_pending = record s { loading = true; error = none }
reduce s (add_fulfilled item) = record s { loading = false; cart = some (push_item s.cart item) }
reduce s (add_rejected r) = record s {
  loading = false;
  error = some (rejection_text r "Failed to add to cart");
}
reduce s update_pending = record s { error = none }
reduce s (update_fulfilled u) = record s { cart = on_cart (set_quantity u) s.cart }
reduce s (update_rejected r) = record s {
  error = some (rejection_text r "Failed to update cart item");
}
reduce s remove_pending = record s { error = none }
reduce s (remove_fulfilled id) = record s { cart = on_cart (without_item id) s.cart }
reduce s (remove_rejected r) = record s {
  error = some (rejection_text r "Failed to remove from cart");
}
reduce s remove_all_pending = record s { loading = true; error = none }
reduce s remove_all_fulfilled = record s { loading = false; cart = some [] }
reduce s (remove_all_rejected r) = record s {
  loading = false;
  error = some (rejection_text r "Failed to remove all cart items");
}

unfoldable pub run : {Number : Type 0} → CartState Number → List (Action Number) → CartState Number
run s [] = s
run s (a ∷ actions) = run (reduce s a) actions

module _ {Number : Type 0} where
  -- `response.data?.data || []`
  abbrev or_empty : Option (List (CartItem Number)) → List (CartItem Number)
  or_empty none = []
  or_empty (some items) = items

  unfoldable pub fetch_cart :
      Result ApiError (Option (List (CartItem Number))) → List (Action Number)
  fetch_cart (ok items) = fetch_pending ∷ fetch_fulfilled (or_empty items) ∷ []
  fetch_cart (throw e) = fetch_pending ∷ fetch_rejected (uncaught e) ∷ []

  -- The server answers with the id of the new item.
  unfoldable pub add_to_cart : CartItem Number → Result ApiError ℕ → List (Action Number)
  add_to_cart request (ok id) = add_pending ∷ add_fulfilled (record request { id = id }) ∷ []
  add_to_cart request (throw e) =
      add_pending
      ∷ add_rejected (reject_with_value (error_text e "Failed to add item to cart"))
      ∷ []

  unfoldable pub update_cart_item : Update → Result ApiError Bool → List (Action Number)
  update_cart_item u (ok _) = update_pending ∷ update_fulfilled u ∷ []
  update_cart_item u (throw e) =
      update_pending
      ∷ update_rejected (reject_with_value (error_text e "Failed to update cart item"))
      ∷ []

  unfoldable pub remove_cart_item : ℕ → Result ApiError Bool → List (Action Number)
  remove_cart_item id (ok _) = remove_pending ∷ remove_fulfilled id ∷ []
  remove_cart_item id (throw e) =
      remove_pending
      ∷ remove_rejected (reject_with_value (error_text e "Failed to remove from cart"))
      ∷ []

  unfoldable pub remove_all_cart_items : Result ApiError Bool → List (Action Number)
  remove_all_cart_items (ok _) = remove_all_pending ∷ remove_all_fulfilled ∷ []
  remove_all_cart_items (throw e) =
      remove_all_pending
      ∷ remove_all_rejected (reject_with_value (error_text e "Failed to remove all cart items"))
      ∷ []
