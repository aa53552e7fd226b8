-- ===== src/App/Cart/Tests.antt =====
-- cartSlice on concrete carts, and its theorems at them.
use pipeline_azure.Prelude.{ℕ, ◌≡◌, refl, false, none, some, List, [], ◌∷◌, throw}
use pipeline_azure.App.Api.{ApiError}
use pipeline_azure.App.Cart.{
  CartItem, CartState, Action, fetch_fulfilled, add_fulfilled, update_fulfilled, remove_fulfilled,
  initial_state, with_quantity, reduce, run,
}
use pipeline_azure.App.Cart.Lookup.{view, changes, view-run}
use pipeline_azure.App.Cart.Calls.{updates, actions, IsSettled, actions-IsSettled}

abbrev pen : CartItem ℕ
pen = record {
  id = 4;
  title = "pen";
  price = 120;
  description = "";
  category = "office";
  image = "";
  rating = record { rate = 4; count = 17 };
  quantity = 1;
}

abbrev session : List (Action ℕ)
session =
    fetch_fulfilled []
    ∷ add_fulfilled pen
    ∷ update_fulfilled (record { cart_id = 4; quantity = 3 })
    ∷ remove_fulfilled 9
    ∷ []

session_test : (run initial_state session).cart ≡ some (with_quantity 3 pen ∷ [])
unfolding run reduce
session_test = refl

view-run_example : view (run initial_state session) ≡ changes (view initial_state) session
view-run_example = view-run initial_state session

abbrev offline : ApiError
offline = record { response_message = none; message = some "Network Error" }

abbrev one_pen : CartState ℕ
one_pen = record { cart = some (pen ∷ []); loading = false; error = none }

failed_update_test :
    (run one_pen (actions (updates (record { cart_id = 4; quantity = 3 }) (throw offline)))).error
    ≡ some "Network Error"
unfolding run reduce actions
failed_update_test = refl

actions-IsSettled_example :
    IsSettled one_pen
      (run one_pen (actions (updates (record { cart_id = 4; quantity = 3 }) (throw offline))))
      false
actions-IsSettled_example =
    actions-IsSettled one_pen (updates (record { cart_id = 4; quantity = 3 }) (throw offline)) refl
