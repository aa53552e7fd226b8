-- ===== src/Web/Cart.antt =====
-- src/Presentation/Web/src/presentation/store/slices/cartSlice.ts, with `localStorage`.
-- Prices are numbers of JavaScript, kept abstract with the sum and the product that they have.
mod Totals
mod Tests
use pipeline_azure.Prelude.{
  ℕ, ◌+◌, Bool, not, Option, none, some, String, List, [], ◌∷◌, ◌++◌, nat_eq, ◌==◌, find_by,
  filter_by, update_first,
}
use pipeline_azure.Json.{Json}
use pipeline_azure.Storage.{LocalStorage, set_item, remove_item, load_list}

pub record Arithmetic (Number : Type 0) : Type 0 where
  pub zero_number : Number
  pub plus : Number → Number → Number
  pub times : Number → ℕ → Number

pub record CartItem (Number : Type 0) : Type 0 where
  pub id : ℕ
  pub title : String
  pub price : Number
  pub image : String
  pub quantity : ℕ

pub record CartState (Number : Type 0) : Type 0 where
  pub items : List (CartItem Number)
  pub total : Number

pub record Page (Number Text : Type 0) : Type 0 where
  pub state : CartState Number
  pub storage : LocalStorage Text

pub data Action (Number : Type 0) : Type 0 where
  add_to_cart : CartItem Number → Action Number
  remove_from_cart : ℕ → Action Number
  update_quantity : (id quantity : ℕ) → Action Number
  clear_cart : Action Number

module _ {Number : Type 0} (n : Arithmetic Number) where
  unfoldable pub sum_from : Number → List (CartItem Number) → Number
  sum_from sum [] = sum
  sum_from sum (item ∷ items) = sum_from (n.plus sum (n.times item.price item.quantity)) items

  -- `items.reduce((sum, item) => sum + item.price * item.quantity, 0)`
  unfoldable pub calculate_total : List (CartItem Number) → Number
  unfolding sum_from
  calculate_total items = sum_from n.zero_number items

abbrev pub one_more : {Number : Type 0} → CartItem Number → CartItem Number
one_more item = record item { quantity = item.quantity + 1 }

-- `existing` is what `find` answers.
abbrev pub put_item :
    {Number : Type 0}
    → Option (CartItem Number)
    → CartItem Number
    → List (CartItem Number)
    → List (CartItem Number)
put_item none new items = items ++ record new { quantity = 1 } ∷ []
put_item (some existing) new items = update_first (λ item. item.id == new.id) one_more items

module _ {Number Text : Type 0} (n : Arithmetic Number)
    (json : Json Text (List (CartItem Number))) where
  -- `none` where the stored text is no JSON.
  unfoldable pub initial_state : LocalStorage Text → Option (CartState Number)
  initial_state storage = elim (load_list json "cart" storage) [
    | none ↦ none
    | some items ↦ some (record { items = items; total = n.zero_number })
  ]

  -- The two lines at the end of the reducers.
  unfoldable pub save_items : List (CartItem Number) → Page Number Text → Page Number Text
  unfolding calculate_total
  save_items items p = record {
    state = record { items = items; total = calculate_total n items };
    storage = set_item "cart" (json.stringify items) p.storage;
  }

  unfoldable pub reduce : Page Number Text → Action Number → Page Number Text
  unfolding save_items
  reduce p (add_to_cart new) =
      save_items (put_item (find_by (λ item. item.id == new.id) p.state.items) new p.state.items) p
  reduce p (remove_from_cart id) =
      save_items (filter_by (λ item. not (item.id == id)) p.state.items) p
  reduce p (update_quantity id quantity) = elim (find_by (λ item. item.id == id) p.state.items) [
    | none ↦ p
    | some item ↦
        save_items
          (update_first (λ item. item.id == id) (λ item. record item { quantity = quantity })
            p.state.items)
          p
  ]
  reduce p clear_cart = record {
    state = record { items = []; total = n.zero_number };
    storage = remove_item "cart" p.storage;
  }

  unfoldable pub run : Page Number Text → List (Action Number) → Page Number Text
  unfolding reduce
  run p [] = p
  run p (a ∷ actions) = run (reduce p a) actions
