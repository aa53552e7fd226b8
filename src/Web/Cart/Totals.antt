-- ===== src/Web/Cart/Totals.antt =====
-- cartSlice of the web shop: the total against the items, and what a reload finds.
use pipeline_azure.Prelude.{
  ◌≡◌, refl, Option, none, some, List, [], ◌∷◌, arith, find_by, nat_eq, ◌==◌,
}
use pipeline_azure.Json.{Json}
use pipeline_azure.Storage.{load_list, load_list-set_item, load_list-remove_item}
use pipeline_azure.Web.Cart.{
  Arithmetic, CartItem, Page, Action, add_to_cart, remove_from_cart, update_quantity, clear_cart,
  calculate_total, sum_from, initial_state, save_items, reduce, run,
}

module _ {Number Text : Type 0} (n : Arithmetic Number)
    (json : Json Text (List (CartItem Number))) where
  -- The total is that of the items, and the storage holds the items.
  pub record IsConsistent (p : Page Number Text) : Type 0 where
    pub total : p.state.total ≡ calculate_total n p.state.items
    pub stored : load_list json "cart" p.storage ≡ some p.state.items

  save_items-IsConsistent :
      (items : List (CartItem Number)) (p : Page Number Text)
      → IsConsistent (save_items n json items p)
  unfolding save_items
  save_items-IsConsistent items p = record {
    total = refl;
    stored = load_list-set_item json "cart" "cart" items p.storage;
  }

  updated-IsConsistent :
      (o : Option (CartItem Number)) (p q : Page Number Text)
      → IsConsistent p
      → IsConsistent q
      → IsConsistent (elim o [ none ↦ p | some item ↦ q ])
  updated-IsConsistent none p q s t = s
  updated-IsConsistent (some item) p q s t = t

  reduce-IsConsistent :
      (p : Page Number Text) (a : Action Number) → IsConsistent p → IsConsistent (reduce n json p a)
  unfolding reduce calculate_total sum_from
  reduce-IsConsistent p (add_to_cart new) s = save_items-IsConsistent _ p
  reduce-IsConsistent p (remove_from_cart id) s = save_items-IsConsistent _ p
  reduce-IsConsistent p (update_quantity id quantity) s =
      updated-IsConsistent (find_by (λ item. item.id == id) p.state.items) p _ s
        (save_items-IsConsistent _ p)
  reduce-IsConsistent p clear_cart s = record {
    total = refl;
    stored = load_list-remove_item json "cart" "cart" p.storage;
  }

  run-IsConsistent :
      (p : Page Number Text) (actions : List (Action Number))
      → IsConsistent p
      → IsConsistent (run n json p actions)
  unfolding run
  run-IsConsistent p [] s = s
  run-IsConsistent p (a ∷ actions) s =
      run-IsConsistent (reduce n json p a) actions (reduce-IsConsistent p a s)

  -- From a page whose total is that of its items and whose items are stored: after any actions the
  -- total is the sum of the prices times the quantities, and a reload finds the same items, but the
  -- total 0.
  cart_total-run :
      (p : Page Number Text) (actions : List (Action Number))
      → IsConsistent p
      → ((run n json p actions).state.total ≡ calculate_total n (run n json p actions).state.items)
        × (initial_state n json (run n json p actions).storage
            ≡ some (record { items = (run n json p actions).state.items; total = n.zero_number }))
  unfolding initial_state
  cart_total-run p actions s =
      let t = run-IsConsistent p actions s in (t.total, ground (arith, t.stored))
