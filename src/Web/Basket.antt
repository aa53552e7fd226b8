-- ===== src/Web/Basket.antt =====
-- src/Presentation/Web/src/infrastructure/persistence/CartAPIRepository.ts, and the hook of
-- src/Presentation/Web/src/presentation/features/cart/hooks/useCart.ts over it. A request throws, or
-- comes back with `response.data.data`: that of an addition is `undefined`, `null` or an identifier, and
-- only the first is refused. The totals are those of the cart slice.
pub mod Agrees
mod Tests
use pipeline_azure.Prelude.{
  ℕ, ◌≡◌, Bool, true, false, Option, none, some, String, List, [], ◌∷◌, Result, ok, throw, nat_eq,
  string_eq, ◌==◌, find_by, if◌then◌else◌,
}
use pipeline_azure.Queries.Cache.{Key, text, QueryClient, Shown}
use pipeline_azure.Queries.Hooks.{
  Query, Mutation, Panel, use_query, use_mutation, Effect, success, info, error, navigate,
}

-- An item without an identifier is one whose `id` is `null`.
pub record CartItem (Details : Type 0) : Type 0 where
  pub id : Option ℕ
  pub details : Details

-- The server. A request that throws, or that comes back with `undefined`, changes nothing.
pub record CartApi (S Details : Type 0) : Type 0 where
  pub get_all : S → Result String (Option (List (CartItem Details)))
  pub post : Details → S → Result String (Option (Option ℕ)) × S
  pub put : CartItem Details → S → Result String (Unit {0}) × S
  pub delete : ℕ → S → Result String (Unit {0}) × S
  pub delete_all : S → Result String (Unit {0}) × S
  pub post-throw : (d : Details) (s : S) (e : String) → (post d s).0 ≡ throw e → (post d s).1 ≡ s
  pub post-none : (d : Details) (s : S) → (post d s).0 ≡ ok none → (post d s).1 ≡ s
  pub put-throw :
      (i : CartItem Details) (s : S) (e : String) → (put i s).0 ≡ throw e → (put i s).1 ≡ s
  pub delete-throw : (id : ℕ) (s : S) (e : String) → (delete id s).0 ≡ throw e → (delete id s).1 ≡ s
  pub delete_all-throw : (s : S) (e : String) → (delete_all s).0 ≡ throw e → (delete_all s).1 ≡ s

-- `item.id === id`
abbrev pub has_id : ℕ → Option ℕ → Bool
has_id id none = false
has_id id (some i) = i == id

abbrev pub cart_key : Key
cart_key = text "cart" ∷ []

abbrev pub please_login : String
please_login = "Please login to add items to cart"

-- What the user does; `adds` with whether somebody is logged in.
pub data Event (Details : Type 0) : Type 0 where
  opens : Event Details
  adds : (is_authenticated : Bool) → Details → Event Details
  updates : CartItem Details → Event Details
  removes : ℕ → Event Details
  clears : Event Details

-- `not_found id` is the text `Cart item with ID ${id} not found`.
module _ {S Details : Type 0} (api : CartApi S Details) where
  abbrev pub or_empty :
      Result String (Option (List (CartItem Details))) → Result String (List (CartItem Details))
  or_empty (throw e) = throw e
  or_empty (ok none) = ok []
  or_empty (ok (some items)) = ok items

  unfoldable pub get_all : S → Result String (List (CartItem Details))
  get_all s = or_empty (api.get_all s)

  abbrev or_not_found : String → Option (CartItem Details) → Result String (CartItem Details)
  or_not_found not_found none = throw not_found
  or_not_found not_found (some item) = ok item

  abbrev item_of :
      (ℕ → String) → ℕ → Result String (List (CartItem Details)) → Result String (CartItem Details)
  item_of not_found id (throw e) = throw e
  item_of not_found id (ok items) =
      or_not_found (not_found id) (find_by (λ item. has_id id item.id) items)

  unfoldable pub get_by_id : (ℕ → String) → ℕ → S → Result String (CartItem Details)
  unfolding get_all
  get_by_id not_found id s = item_of not_found id (get_all s)

  abbrev pub with_id :
      Details → Result String (Option (Option ℕ)) → Result String (CartItem Details)
  with_id details (throw e) = throw e
  with_id details (ok none) = throw "Failed to add item to cart"
  with_id details (ok (some id)) = ok (record { id = id; details = details })

  unfoldable pub add : Details → S → Result String (CartItem Details) × S
  add details s = let (answer, after) = api.post details s in (with_id details answer, after)

  abbrev pub kept_item :
      CartItem Details → Result String (Unit {0}) → Result String (CartItem Details)
  kept_item item (throw e) = throw e
  kept_item item (ok u) = ok item

  unfoldable pub update : CartItem Details → S → Result String (CartItem Details) × S
  update item s = let (answer, after) = api.put item s in (kept_item item answer, after)

  abbrev pub value_of :
      Result String (List (CartItem Details)) → Result String (Option (List (CartItem Details)))
  value_of (throw e) = throw e
  value_of (ok items) = ok (some items)

  unfoldable pub use_cart : Query S (List (CartItem Details))
  unfolding get_all
  use_cart = record { query_key = cart_key; enabled = true; query_fn = λ s. value_of (get_all s) }

  unfoldable pub add_to_cart : Bool → Details → Mutation S
  unfolding add
  add_to_cart is_authenticated details = record {
    Answer = CartItem Details;
    mutation_fn = λ s. if is_authenticated then add details s else (throw please_login, s);
    invalidates = cart_key ∷ [];
    on_success = some (success "Product added to cart");
    on_error = λ message.
        if message == please_login
        then info please_login ∷ navigate "/login" ∷ []
        else error "Failed to add product to cart" ∷ [];
  }

  unfoldable pub update_cart_item : CartItem Details → Mutation S
  unfolding update
  update_cart_item item = record {
    Answer = CartItem Details;
    mutation_fn = update item;
    invalidates = cart_key ∷ [];
    on_success = none;
    on_error = λ message. error "Failed to update cart item" ∷ [];
  }

  unfoldable pub remove_from_cart : ℕ → Mutation S
  remove_from_cart id = record {
    Answer = Unit {0};
    mutation_fn = api.delete id;
    invalidates = cart_key ∷ [];
    on_success = some (success "Product removed from cart");
    on_error = λ message. error "Failed to remove product from cart" ∷ [];
  }

  unfoldable pub clear_cart : Mutation S
  clear_cart = record {
    Answer = Unit {0};
    mutation_fn = api.delete_all;
    invalidates = cart_key ∷ [];
    on_success = some (success "Cart cleared");
    on_error = λ message. error "Failed to clear cart" ∷ [];
  }

  module _ (client : QueryClient (List (CartItem Details))) where
    -- `data: cartItems = []`
    abbrev pub or_no_items : Option (List (CartItem Details)) → List (CartItem Details)
    or_no_items none = []
    or_no_items (some items) = items

    unfoldable pub cart_items : Shown client → Panel client.Cache S → List (CartItem Details)
    cart_items shown p = or_no_items (shown.query_data p.cache cart_key)

    unfoldable pub step : Event Details → Panel client.Cache S → Panel client.Cache S
    unfolding use_query use_mutation use_cart add_to_cart update_cart_item remove_from_cart
        clear_cart
    step opens p = use_query client use_cart p
    step (adds is_authenticated details) p =
        use_mutation client (add_to_cart is_authenticated details) p
    step (updates item) p = use_mutation client (update_cart_item item) p
    step (removes id) p = use_mutation client (remove_from_cart id) p
    step clears p = use_mutation client clear_cart p

    unfoldable pub run : List (Event Details) → Panel client.Cache S → Panel client.Cache S
    unfolding step
    run [] p = p
    run (e ∷ events) p = run events (step e p)
