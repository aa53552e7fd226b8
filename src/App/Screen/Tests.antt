-- ===== src/App/Screen/Tests.antt =====
-- CartScreen on concrete inputs.
use pipeline_azure.Prelude.{arith, ◌≡◌, refl, none, some, List, [], ◌∷◌, ok, map, ℕ}
use pipeline_azure.App.Cart.{CartItem, initial_state, run, reduce}
use pipeline_azure.App.Screen.{
  Screen, Event, mounts, taps_increase, taps_decrease, taps_remove, confirms_clear, answers,
  dispatch, display_items, items_with_quantity, step, run_screen, handle_increase_quantity,
  handle_decrease_quantity, handle_remove_item,
}
use pipeline_azure.App.Screen.Positive.{Positive, items_with_quantity-run_screen}

abbrev mug : CartItem ℕ
mug = record {
  id = 4;
  title = "Mug";
  price = 12;
  description = "";
  category = "kitchen";
  image = "";
  rating = record { rate = 4; count = 2 };
  quantity = 1;
}

abbrev start : Screen ℕ
start = record { state = initial_state; in_flight = [] }

-- The cart is read, then the plus button is tapped twice before the first answer comes.
abbrev two_taps : List (Event ℕ)
two_taps =
    mounts
    ∷ answers 0 (ok (some (mug ∷ [])))
    ∷ taps_increase 4
    ∷ taps_increase 4
    ∷ answers 0 (ok none)
    ∷ answers 0 (ok none)
    ∷ taps_decrease 9
    ∷ []

abbrev quantities : Screen ℕ → List ℕ
quantities s = map (λ item. item.quantity) (display_items s)

-- Both taps send the quantity 2.
two_taps_example : quantities (run_screen two_taps start) ≡ 2 ∷ []
unfolding run_screen step dispatch run reduce items_with_quantity handle_increase_quantity
    handle_decrease_quantity
two_taps_example = refl

-- At quantity 1 the minus button sends nothing; the other buttons do.
buttons_example :
    quantities (
      run_screen
        (mounts
          ∷ answers 0 (ok (some (mug ∷ [])))
          ∷ taps_decrease 4
          ∷ taps_remove 4
          ∷ confirms_clear
          ∷ answers 1 (ok none)
          ∷ [])
        start)
    ≡ []
unfolding run_screen step dispatch run reduce items_with_quantity handle_remove_item
    handle_decrease_quantity
buttons_example = refl

items_with_quantity-run_screen_example :
    Positive (run_screen two_taps start)
    × items_with_quantity (run_screen two_taps start) ≡ display_items (run_screen two_taps start)
items_with_quantity-run_screen_example =
    items_with_quantity-run_screen two_taps start
      (tt, ((omega arith, tt), (tt, (tt, (tt, (tt, (tt, tt)))))))
      (record { items = tt; thunks = tt })
