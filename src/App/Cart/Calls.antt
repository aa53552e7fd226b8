-- ===== src/App/Cart/Calls.antt =====
-- cartSlice: a whole call of a thunk, from its `pending` action to the answer.
use pipeline_azure.Prelude.{
  if◌then◌else◌, ◌||◌, ℕ, ◌≡◌, refl, Bool, true, false, Option, none, List, arith, Result, ok,
  throw, is_truthy, is_truthy?, String,
}
use pipeline_azure.App.Api.{
  ApiError, error_text, rejection_text, error_text-is_truthy, rejection_text-is_truthy,
  reject_with_value, uncaught,
}
use pipeline_azure.App.Cart.{
  CartItem, CartState, Update, Action, fetch_cart, add_to_cart, update_cart_item, remove_cart_item,
  remove_all_cart_items, reduce, run,
}

-- A thunk with its argument and the answer of its HTTP call.
pub data Call (Number : Type 0) : Type 0 where
  fetches : Result ApiError (Option (List (CartItem Number))) → Call Number
  adds : CartItem Number → Result ApiError ℕ → Call Number
  updates : Update → Result ApiError Bool → Call Number
  removes : ℕ → Result ApiError Bool → Call Number
  removes_all : Result ApiError Bool → Call Number

abbrev is_ok : {A : Type 0} → Result ApiError A → Bool
is_ok (ok _) = true
is_ok (throw _) = false

-- The reason that a caught failure leaves in the state is no empty text.
told_reason :
    (e : ApiError) (reason fallback : String)
    → is_truthy reason ≡ true
    → is_truthy (rejection_text (reject_with_value (error_text e reason)) fallback) ≡ true
told_reason e reason fallback h = ground (arith, error_text-is_truthy e reason h)

module _ {Number : Type 0} where
  unfoldable pub actions : Call Number → List (Action Number)
  unfolding fetch_cart add_to_cart update_cart_item remove_cart_item remove_all_cart_items
  actions (fetches answer) = fetch_cart answer
  actions (adds item answer) = add_to_cart item answer
  actions (updates u answer) = update_cart_item u answer
  actions (removes id answer) = remove_cart_item id answer
  actions (removes_all answer) = remove_all_cart_items answer

  abbrev pub succeeds : Call Number → Bool
  succeeds (fetches answer) = is_ok answer
  succeeds (adds _ answer) = is_ok answer
  succeeds (updates _ answer) = is_ok answer
  succeeds (removes _ answer) = is_ok answer
  succeeds (removes_all answer) = is_ok answer

  -- What the screens see of a call that is over.
  pub record IsSettled (before after : CartState Number) (success : Bool) : Type 0 where
    pub idle : after.loading ≡ before.loading
    pub clean : (if success then after.error else none) ≡ none
    pub told : (success || is_truthy? after.error) ≡ true
    pub kept : (if success then before.cart else after.cart) ≡ before.cart

  -- A call of a thunk on an idle cart ends with the cart idle; if it succeeds there is no error,
  -- and if it fails there is a text that is not empty, and the items are as they were.
  pub actions-IsSettled :
      (s : CartState Number) (c : Call Number)
      → s.loading ≡ false
      → IsSettled s (run s (actions c)) (succeeds c)
  unfolding run reduce actions
  actions-IsSettled s (fetches (throw e)) h =
      ground (arith, rejection_text-is_truthy (uncaught e) "Failed to fetch cart" refl)
  actions-IsSettled s (adds item (throw e)) h =
      ground (arith, told_reason e "Failed to add item to cart" "Failed to add to cart" refl)
  actions-IsSettled s (updates u (throw e)) h =
      ground (arith, told_reason e "Failed to update cart item" "Failed to update cart item" refl)
  actions-IsSettled s (removes id (throw e)) h =
      ground (arith, told_reason e "Failed to remove from cart" "Failed to remove from cart" refl)
  actions-IsSettled s (removes_all (throw e)) h = ground (
    arith,
    told_reason e "Failed to remove all cart items" "Failed to remove all cart items" refl,
  )
  actions-IsSettled s (fetches (ok a)) h = ground arith
  actions-IsSettled s (adds item (ok a)) h = ground arith
  actions-IsSettled s (updates u (ok a)) h = ground arith
  actions-IsSettled s (removes id (ok a)) h = ground arith
  actions-IsSettled s (removes_all (ok a)) h = ground arith
