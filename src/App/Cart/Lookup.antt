-- ===== src/App/Cart/Lookup.antt =====
-- cartSlice: the cart seen as a map from identifiers to items, and each action as a change of it.
use mathlib.Core.Path.{fun_ext}
use mathlib.Core.Option
use pipeline_azure.Prelude.{
  ℕ, ◌≡◌, refl, ap, ◌∙◌, Option, none, some, List, [], ◌∷◌, ◌++◌, nat_eq, ◌==◌, arith, find_by,
  if◌then◌else◌,
}
use pipeline_azure.App.Cart.{
  CartItem, CartState, Update, push_item, on_cart, Action, clear_cart, fetch_fulfilled,
  add_fulfilled, update_fulfilled, remove_fulfilled, remove_all_fulfilled, with_quantity,
  set_quantity, without_item, reduce, run,
}

module _ {Number : Type 0} where
  pub find_item : List (CartItem Number) → ℕ → Option (CartItem Number)
  find_item items id = find_by (λ item. item.id == id) items

  view_cart : Option (List (CartItem Number)) → ℕ → Option (CartItem Number)
  view_cart none id = none
  view_cart (some items) id = find_item items id

  -- The item that the app shows for an identifier; none of any identifier before the first fetch.
  unfoldable pub view : CartState Number → ℕ → Option (CartItem Number)
  unfolding view_cart find_item
  view s id = view_cart s.cart id

  -- An item that is there already hides a later one with its identifier.
  abbrev pub or_else :
      Option (CartItem Number) → Option (CartItem Number) → Option (CartItem Number)
  or_else none o = o
  or_else (some item) o = some item

  -- What an action does to the map.
  unfoldable pub change :
      (ℕ → Option (CartItem Number)) → Action Number → ℕ → Option (CartItem Number)
  unfolding find_item
  change m clear_cart j = none
  change m (fetch_fulfilled items) j = find_item items j
  change m (add_fulfilled item) j = or_else (m j) (if item.id == j then some item else none)
  change m (update_fulfilled u) j =
      if u.cart_id == j then Option.map (with_quantity u.quantity) (m j) else m j
  change m (remove_fulfilled id) j = if id == j then none else m j
  change m remove_all_fulfilled j = none
  change m _ j = m j

  unfoldable pub changes :
      (ℕ → Option (CartItem Number)) → List (Action Number) → ℕ → Option (CartItem Number)
  changes m [] = m
  changes m (a ∷ actions) = changes (change m a) actions

  find_item-append :
      (items : List (CartItem Number)) (item : CartItem Number) (j : ℕ)
      → find_item (items ++ item ∷ []) j
        ≡ or_else (find_item items j) (if item.id == j then some item else none)
  unfolding find_item
  find_item-append [] item j = refl
  find_item-append (x ∷ items) item j = ground (arith, find_item-append items item j)

  find_item-set_quantity :
      (u : Update) (items : List (CartItem Number)) (j : ℕ)
      → find_item (set_quantity u items) j ≡ (
          if u.cart_id == j
          then Option.map (with_quantity u.quantity) (find_item items j)
          else find_item items j)
  unfolding find_item
  find_item-set_quantity u [] j = ground arith
  find_item-set_quantity u (x ∷ items) j = ground (arith, find_item-set_quantity u items j)

  find_item-without_item :
      (id : ℕ) (items : List (CartItem Number)) (j : ℕ)
      → find_item (without_item id items) j ≡ (if id == j then none else find_item items j)
  unfolding find_item
  find_item-without_item id [] j = ground arith
  find_item-without_item id (x ∷ items) j = ground (arith, find_item-without_item id items j)

  view_cart-push_item :
      (c : Option (List (CartItem Number))) (item : CartItem Number) (j : ℕ)
      → find_item (push_item c item) j
        ≡ or_else (view_cart c j) (if item.id == j then some item else none)
  unfolding view_cart find_item
  view_cart-push_item none item j = refl
  view_cart-push_item (some items) item j = find_item-append items item j

  view_cart-set_quantity :
      (u : Update) (c : Option (List (CartItem Number))) (j : ℕ)
      → view_cart (on_cart (set_quantity u) c) j ≡ (
          if u.cart_id == j
          then Option.map (with_quantity u.quantity) (view_cart c j)
          else view_cart c j)
  unfolding view_cart
  view_cart-set_quantity u none j = ground arith
  view_cart-set_quantity u (some items) j = find_item-set_quantity u items j

  view_cart-without_item :
      (id : ℕ) (c : Option (List (CartItem Number))) (j : ℕ)
      → view_cart (on_cart (without_item id) c) j ≡ (if id == j then none else view_cart c j)
  unfolding view_cart
  view_cart-without_item id none j = ground arith
  view_cart-without_item id (some items) j = find_item-without_item id items j

  view-reduce_at :
      (s : CartState Number) (a : Action Number) (j : ℕ) → view (reduce s a) j ≡ change (view s) a j
  unfolding view change reduce
  view-reduce_at s clear_cart j = refl
  view-reduce_at s (add_fulfilled item) j = view_cart-push_item s.cart item j
  view-reduce_at s (update_fulfilled u) j = view_cart-set_quantity u s.cart j
  view-reduce_at s (remove_fulfilled id) j = view_cart-without_item id s.cart j
  view-reduce_at s a j = refl

  -- After any sequence of actions the cart, looked up by identifier, is what the same actions
  -- make of the map that it was: a fetch replaces it, an added item appears where there was
  -- none, an update changes one quantity, and a removal clears one identifier or all.
  pub view-run :
      (s : CartState Number) (actions : List (Action Number))
      → view (run s actions) ≡ changes (view s) actions
  unfolding run changes
  view-run s [] = refl
  view-run s (a ∷ actions) =
      view-run (reduce s a) actions ∙ ap (λ m. changes m actions) (fun_ext (view-reduce_at s a))
