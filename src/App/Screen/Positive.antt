-- ===== src/App/Screen/Positive.antt =====
-- CartScreen: the quantities, whatever is tapped and whenever the answers come.
use mathlib.Core.Path.{subst}
use pipeline_azure.Prelude.{
  ℕ, zero, suc, ◌-◌, ◌≤◌, ◌≡◌, refl, sym, ap, true, not, Option, none, some, List, [], ◌∷◌, arith,
  nat_eq, ◌==◌, ltb, find_by, filter_by, All, All-append, All-filter_by, ok, throw, Bool-cases, inl,
  inr,
}
use pipeline_azure.App.Cart.{
  CartItem, CartState, Update, run, reduce, fetch_cart, update_cart_item, remove_cart_item,
  remove_all_cart_items, set_quantity, without_item,
}
use pipeline_azure.App.Screen.{
  Thunk, fetches, clears, updates, removes, Reply, Screen, Event, mounts, confirms_clear,
  taps_increase, taps_decrease, taps_remove, answers, actions_of, later_actions, dispatch,
  display_items, items_with_quantity, handle_increase_quantity, handle_decrease_quantity,
  handle_remove_item, on_item, take_at, settle, step, run_screen,
}

abbrev pub IsPositive : Thunk → Type 0
IsPositive (updates u) = 1 ≤ u.quantity
IsPositive _ = Unit {0}

abbrev SomePositive : Option Thunk → Type 0
SomePositive none = Unit {0}
SomePositive (some t) = IsPositive t

take_at-Positive :
    (n : ℕ) (thunks : List Thunk)
    → All IsPositive thunks
    → SomePositive (take_at n thunks).0 × All IsPositive (take_at n thunks).1
take_at-Positive n [] h = (tt, tt)
take_at-Positive zero (t ∷ thunks) (p, h) = (p, h)
take_at-Positive (suc n) (t ∷ thunks) (p, h) =
    let (found, rest) = take_at-Positive n thunks h in (found, (p, rest))

zero_below : (n : ℕ) → 1 ≤ n → ltb 0 n ≡ true
zero_below n h = ground arith

one_below : (n : ℕ) → ltb 1 n ≡ true → 1 ≤ n - 1
one_below n h = ground arith

module _ {Number : Type 0} where
  abbrev pub Stocked : List (CartItem Number) → Type 0
  Stocked = All (λ item. 1 ≤ item.quantity)

  abbrev pub StockedCart : Option (List (CartItem Number)) → Type 0
  StockedCart none = Unit {0}
  StockedCart (some items) = Stocked items

  -- The server answers with items of a positive quantity.
  abbrev pub StockedReply : Reply Number → Type 0
  StockedReply (ok items) = StockedCart items
  StockedReply (throw e) = Unit {0}

  abbrev pub StockedEvent : Event Number → Type 0
  StockedEvent (answers n reply) = StockedReply reply
  StockedEvent _ = Unit {0}

  pub record Positive (s : Screen Number) : Type 0 where
    pub items : StockedCart s.state.cart
    pub thunks : All IsPositive s.in_flight

  Stocked-set_quantity :
      (u : Update) (items : List (CartItem Number))
      → 1 ≤ u.quantity
      → Stocked items
      → Stocked (set_quantity u items)
  Stocked-set_quantity u [] h k = tt
  Stocked-set_quantity u (item ∷ items) h (q, k) = elim (Bool-cases (item.id == u.cart_id)) [
    | inl own ↦ rw own (h, k)
    | inr other ↦ rw other (q, Stocked-set_quantity u items h k)
  ]

  StockedCart-map :
      (f : List (CartItem Number) → List (CartItem Number))
      → ((items : List (CartItem Number)) → Stocked items → Stocked (f items))
      → (cart : Option (List (CartItem Number))) → StockedCart cart
      → StockedCart (elim cart [ none ↦ none | some items ↦ some (f items) ])
  StockedCart-map f h none k = tt
  StockedCart-map f h (some items) k = h items k

  settle-StockedCart :
      (t : Thunk) (reply : Reply Number) (state : CartState Number)
      → IsPositive t
      → StockedReply reply
      → StockedCart state.cart
      → StockedCart (run state (later_actions (actions_of t reply))).cart
  unfolding run reduce fetch_cart update_cart_item remove_cart_item remove_all_cart_items
  settle-StockedCart fetches (throw e) state p r k = k
  settle-StockedCart clears (throw e) state p r k = k
  settle-StockedCart (updates u) (throw e) state p r k = k
  settle-StockedCart (removes id) (throw e) state p r k = k
  settle-StockedCart fetches (ok none) state p r k = tt
  settle-StockedCart fetches (ok (some items)) state p r k = r
  settle-StockedCart clears (ok items) state p r k = tt
  settle-StockedCart (updates u) (ok items) state p r k =
      StockedCart-map (set_quantity u) (λ stock. Stocked-set_quantity u stock p) state.cart k
  settle-StockedCart (removes id) (ok items) state p r k =
      StockedCart-map (without_item id)
        (λ stock. All-filter_by (λ item. 1 ≤ item.quantity) (λ item. not (item.id == id)) stock)
        state.cart k

  -- The first action of a thunk leaves the cart as it is.
  dispatch-cart : (t : Thunk) (s : Screen Number) → (dispatch t s).state.cart ≡ s.state.cart
  unfolding dispatch run reduce fetch_cart update_cart_item remove_cart_item remove_all_cart_items
  dispatch-cart fetches s = refl
  dispatch-cart clears s = refl
  dispatch-cart (updates u) s = refl
  dispatch-cart (removes id) s = refl

  in_flight-dispatch :
      (t : Thunk) (s : Screen Number)
      → IsPositive t
      → All IsPositive s.in_flight
      → All IsPositive (dispatch t s).in_flight
  unfolding dispatch
  in_flight-dispatch t s p h = All-append IsPositive s.in_flight (t ∷ []) h (p, tt)

  dispatch-Positive :
      (t : Thunk) (s : Screen Number) → IsPositive t → Positive s → Positive (dispatch t s)
  dispatch-Positive t s p k = record {
    items = subst StockedCart (sym (dispatch-cart t s)) k.items;
    thunks = in_flight-dispatch t s p k.thunks;
  }

  Positive-found :
      (handle : CartItem Number → Screen Number → Screen Number) (s : Screen Number)
      → ((item : CartItem Number) → Positive (handle item s))
      → Positive s
      → (found : Option (CartItem Number))
      → Positive (elim found [ none ↦ s | some item ↦ handle item s ])
  Positive-found handle s h k none = k
  Positive-found handle s h k (some item) = h item

  on_item-Positive :
      (id : ℕ) (handle : CartItem Number → Screen Number → Screen Number) (s : Screen Number)
      → ((item : CartItem Number) → Positive (handle item s))
      → Positive s
      → Positive (on_item id handle s)
  on_item-Positive id handle s h k =
      Positive-found handle s h k (find_by (λ item. item.id == id) (items_with_quantity s))

  decrease-Positive :
      (item : CartItem Number) (s : Screen Number)
      → Positive s
      → Positive (handle_decrease_quantity item s)
  unfolding handle_decrease_quantity
  decrease-Positive item s k = elim (Bool-cases (ltb 1 item.quantity)) [
    | inl more ↦ rw more (dispatch-Positive _ s (one_below item.quantity more) k)
    | inr last ↦ rw last k
  ]

  settle-Stocked :
      (t : Option Thunk) (reply : Reply Number) (state : CartState Number)
      → SomePositive t
      → StockedReply reply
      → StockedCart state.cart
      → StockedCart (settle t reply state).cart
  settle-Stocked none reply state p r k = k
  settle-Stocked (some t) reply state p r k = settle-StockedCart t reply state p r k

  step-Positive :
      (e : Event Number) (s : Screen Number) → StockedEvent e → Positive s → Positive (step e s)
  unfolding step handle_increase_quantity handle_decrease_quantity handle_remove_item
  step-Positive mounts s h k = dispatch-Positive fetches s tt k
  step-Positive confirms_clear s h k = dispatch-Positive clears s tt k
  step-Positive (taps_increase id) s h k =
      on_item-Positive id handle_increase_quantity s (λ item. dispatch-Positive _ s (omega arith) k)
        k
  step-Positive (taps_decrease id) s h k =
      on_item-Positive id handle_decrease_quantity s (λ item. decrease-Positive item s k) k
  step-Positive (taps_remove id) s h k =
      on_item-Positive id handle_remove_item s (λ item. dispatch-Positive _ s tt k) k
  step-Positive (answers n reply) s h k =
      let (found, rest) = take_at-Positive n s.in_flight k.thunks in
      record { items = settle-Stocked _ reply s.state found h k.items; thunks = rest }

  filter-Stocked :
      (items : List (CartItem Number))
      → Stocked items
      → filter_by (λ item. ltb 0 item.quantity) items ≡ items
  filter-Stocked [] h = refl
  filter-Stocked (item ∷ items) (q, h) =
      rw (zero_below item.quantity q) (ap (item ∷◌) (filter-Stocked items h))

  shown-Stocked :
      (cart : Option (List (CartItem Number)))
      → StockedCart cart
      → Stocked (elim cart [ none ↦ [] | some items ↦ items ])
  shown-Stocked none h = tt
  shown-Stocked (some items) h = h

  run-Positive :
      (events : List (Event Number)) (s : Screen Number)
      → All StockedEvent events
      → Positive s
      → Positive (run_screen events s)
  unfolding run_screen
  run-Positive [] s h k = k
  run-Positive (e ∷ events) s (p, h) k = run-Positive events (step e s) h (step-Positive e s p k)

  -- From a screen whose items and whose pending changes have positive quantities, after any taps
  -- and any answers, in any order, of which those that bring items bring only positive quantities:
  -- the items and the pending changes still have positive quantities, and every item of the cart
  -- is shown.
  pub items_with_quantity-run_screen :
      (events : List (Event Number)) (s : Screen Number)
      → All StockedEvent events
      → Positive s
      → Positive (run_screen events s)
        × items_with_quantity (run_screen events s) ≡ display_items (run_screen events s)
  unfolding items_with_quantity
  items_with_quantity-run_screen events s h k =
      let after = run-Positive events s h k in
      (after, filter-Stocked _ (shown-Stocked _ after.items))
