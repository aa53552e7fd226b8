-- ===== src/Web/Cart/Tests.antt =====
-- cartSlice of the web shop on a concrete cart.
use pipeline_azure.Prelude.{ℕ, ◌+◌, ◌*◌, ◌≡◌, refl, Option, List, [], ◌∷◌}
use pipeline_azure.Json.{plain_json}
use pipeline_azure.Web.Cart.{
  Arithmetic, CartItem, Page, Action, add_to_cart, remove_from_cart, update_quantity,
  calculate_total, run,
}

abbrev cents : Arithmetic ℕ
cents = record { zero_number = 0; plus = λ a b. a + b; times = λ price q. price * q }

abbrev pen : CartItem ℕ
pen = record { id = 4; title = "pen"; price = 120; image = ""; quantity = 9 }

abbrev book : CartItem ℕ
book = record { id = 5; title = "book"; price = 900; image = ""; quantity = 1 }

abbrev page : Page ℕ (Option (List (CartItem ℕ)))
page = record { state = record { items = []; total = 0 }; storage = [] }

abbrev actions : List (Action ℕ)
actions =
    add_to_cart pen
    ∷ add_to_cart pen
    ∷ add_to_cart book
    ∷ update_quantity 5 3
    ∷ remove_from_cart 6
    ∷ []

two_pens_three_books : (run cents plain_json page actions).state.total ≡ 2940
unfolding run calculate_total
two_pens_three_books = refl
