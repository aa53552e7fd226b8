-- ===== src/App/Screen.antt =====
-- src/Presentation/App/src/presentation/features/Cart/screens/CartScreen.tsx
-- The handlers of the screen over cartSlice. A thunk dispatches its first action when it is called
-- and the rest when its answer comes; answers come in any order. Prices, and so the total, are not
-- computed; toasts and the question before the cart is cleared are left out.
pub mod Positive
mod Tests
use pipeline_azure.Prelude.{
  ℕ, zero, suc, ◌+◌, ◌-◌, Bool, true, false, Option, none, some, List, [], ◌∷◌, ◌++◌, nat_eq, ◌==◌,
  ltb, find_by, filter_by, map, Result, ok, throw, if◌then◌else◌,
}
use pipeline_azure.App.Api.{ApiError}
use pipeline_azure.App.Cart.{
  CartItem, CartState, Update, Action, run, fetch_cart, update_cart_item, remove_cart_item,
  remove_all_cart_items,
}

-- The thunks that the screen calls, and what the server answers, of which `fetchCart` alone reads
-- the items.
pub data Thunk : Type 0 where
  fetches clears : Thunk
  updates : Update → Thunk
  removes : ℕ → Thunk

abbrev pub Reply : Type 0 → Type 0
Reply Number = Result ApiError (Option (List (CartItem Number)))

pub record Screen (Number : Type 0) : Type 0 where
  pub state : CartState Number
  pub in_flight : List Thunk

pub data Event (Number : Type 0) : Type 0 where
  mounts confirms_clear : Event Number
  taps_increase taps_decrease taps_remove : ℕ → Event Number
  answers : ℕ → Reply Number → Event Number

-- The thunk at a place, and those that stay.
abbrev pub take_at : ℕ → List Thunk → Option Thunk × List Thunk
take_at n [] = (none, [])
take_at zero (t ∷ thunks) = (some t, thunks)
take_at (suc n) (t ∷ thunks) = let rest = take_at n thunks in (rest.0, t ∷ rest.1)

module _ {Number : Type 0} where
  abbrev done : Reply Number → Result ApiError Bool
  done (ok items) = ok true
  done (throw e) = throw e

  -- The actions of a thunk.
  abbrev pub actions_of : Thunk → Reply Number → List (Action Number)
  actions_of fetches reply = fetch_cart reply
  actions_of clears reply = remove_all_cart_items (done reply)
  actions_of (updates u) reply = update_cart_item u (done reply)
  actions_of (removes id) reply = remove_cart_item id (done reply)

  abbrev pub first_action : List (Action Number) → List (Action Number)
  first_action [] = []
  first_action (a ∷ actions) = a ∷ []

  abbrev pub later_actions : List (Action Number) → List (Action Number)
  later_actions [] = []
  later_actions (a ∷ actions) = actions

  unfoldable pub dispatch : Thunk → Screen Number → Screen Number
  unfolding run fetch_cart update_cart_item remove_cart_item remove_all_cart_items
  dispatch t s = record {
    state = run s.state (first_action (actions_of t (ok none)));
    in_flight = s.in_flight ++ t ∷ [];
  }

  -- `Array.isArray(cart) ? cart : []`
  abbrev pub display_items : Screen Number → List (CartItem Number)
  display_items s = elim s.state.cart [ none ↦ [] | some items ↦ items ]

  -- `displayItems.filter(item => item.quantity > 0)`
  unfoldable pub items_with_quantity : Screen Number → List (CartItem Number)
  items_with_quantity s = filter_by (λ item. ltb 0 item.quantity) (display_items s)

  unfoldable pub handle_increase_quantity : CartItem Number → Screen Number → Screen Number
  unfolding dispatch
  handle_increase_quantity item s =
      dispatch (updates (record { cart_id = item.id; quantity = item.quantity + 1 })) s

  unfoldable pub handle_decrease_quantity : CartItem Number → Screen Number → Screen Number
  unfolding dispatch
  handle_decrease_quantity item s =
      if ltb 1 item.quantity
      then dispatch (updates (record { cart_id = item.id; quantity = item.quantity - 1 })) s
      else s

  unfoldable pub handle_remove_item : CartItem Number → Screen Number → Screen Number
  unfolding dispatch
  handle_remove_item item s = dispatch (removes item.id) s

  -- A button stands beside an item that is shown.
  abbrev pub on_item :
      ℕ → (CartItem Number → Screen Number → Screen Number) → Screen Number → Screen Number
  on_item id handle s = elim (find_by (λ item. item.id == id) (items_with_quantity s)) [
    | none ↦ s
    | some item ↦ handle item s
  ]

  abbrev pub settle : Option Thunk → Reply Number → CartState Number → CartState Number
  settle none reply state = state
  settle (some t) reply state = run state (later_actions (actions_of t reply))

  unfoldable pub step : Event Number → Screen Number → Screen Number
  unfolding dispatch items_with_quantity handle_increase_quantity handle_decrease_quantity
      handle_remove_item run
  step mounts s = dispatch fetches s
  step confirms_clear s = dispatch clears s
  step (taps_increase id) s = on_item id handle_increase_quantity s
  step (taps_decrease id) s = on_item id handle_decrease_quantity s
  step (taps_remove id) s = on_item id handle_remove_item s
  step (answers n reply) s =
      let (t, rest) = take_at n s.in_flight in
      record { state = settle t reply s.state; in_flight = rest }

  unfoldable pub run_screen : List (Event Number) → Screen Number → Screen Number
  unfolding step
  run_screen [] s = s
  run_screen (e ∷ events) s = run_screen events (step e s)
