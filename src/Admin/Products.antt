-- ===== src/Admin/Products.antt =====
-- src/Presentation/Admin/src/hooks/useProducts.ts over src/Presentation/Admin/src/lib/api/products.ts
-- The server is a parameter, with what it promises of its requests.
pub mod Agrees
mod Tests
use pipeline_azure.Prelude.{
  ℕ, ◌≡◌, Bool, true, false, not, Option, none, some, String, List, [], ◌∷◌, Result, ok, throw,
  nat_eq, ◌==◌,
}
use pipeline_azure.Queries.Cache.{Key, text, number, page, QueryClient}
use pipeline_azure.Queries.Hooks.{
  error_toast, Query, Mutation, Panel, use_query, use_mutation, success,
}
use pipeline_azure.Admin.Api.{Reply, is_accepted, accepted, found}

-- A request that is not accepted changes nothing, and one that is about one product changes no
-- other.
pub record ProductsApi (S Product Page Command : Type 0) : Type 0 where
  pub get_all : S → Reply (List Product)
  pub get_paged : ℕ → ℕ → S → Reply Page
  pub get_by_id : ℕ → S → Reply Product
  pub create : Command → S → Reply ℕ × S
  pub update : ℕ → Command → S → Reply Bool × S
  pub delete : ℕ → S → Reply Bool × S
  pub create-refused :
      (c : Command) (s : S) → is_accepted (create c s).0 ≡ false → (create c s).1 ≡ s
  pub update-refused :
      (i : ℕ) (c : Command) (s : S) → is_accepted (update i c s).0 ≡ false → (update i c s).1 ≡ s
  pub delete-refused : (i : ℕ) (s : S) → is_accepted (delete i s).0 ≡ false → (delete i s).1 ≡ s
  pub get_by_id-create :
      (j : ℕ) (c : Command) (s : S)
      → is_accepted (get_by_id j s) ≡ true
      → get_by_id j (create c s).1 ≡ get_by_id j s
  pub get_by_id-update :
      (i j : ℕ) (c : Command) (s : S)
      → (i == j) ≡ false
      → get_by_id j (update i c s).1 ≡ get_by_id j s
  pub get_by_id-delete :
      (i j : ℕ) (s : S) → (i == j) ≡ false → get_by_id j (delete i s).1 ≡ get_by_id j s

abbrev pub lists_key : Key
lists_key = text "products" ∷ text "list" ∷ []

abbrev pub list_key : ℕ → ℕ → Key
list_key page_number page_size = text "products" ∷ text "list" ∷ page page_number page_size ∷ []

abbrev pub detail_key : ℕ → Key
detail_key id = text "products" ∷ text "detail" ∷ number id ∷ []

-- What the hooks keep in the cache.
pub data Value (Product Page : Type 0) : Type 0 where
  products : List Product → Value Product Page
  paged : Page → Value Product Page
  product : Product → Value Product Page

pub data Event (Command : Type 0) : Type 0 where
  opens_products : Event Command
  opens_page : ℕ → ℕ → Event Command
  opens_product : ℕ → Event Command
  creates : Command → Event Command
  updates : ℕ → Command → Event Command
  deletes : ℕ → Event Command

module _ {S Product Page Command : Type 0} (api : ProductsApi S Product Page Command) where
  -- `result.data || []`
  abbrev pub or_empty :
      Result String (Option (List Product)) → Result String (Option (Value Product Page))
  or_empty (throw e) = throw e
  or_empty (ok none) = ok (some (products []))
  or_empty (ok (some l)) = ok (some (products l))

  abbrev pub map_value :
      {A : Type 0}
      → (A → Value Product Page)
      → Result String (Option A)
      → Result String (Option (Value Product Page))
  map_value f (throw e) = throw e
  map_value f (ok none) = ok none
  map_value f (ok (some a)) = ok (some (f a))

  unfoldable pub use_products : Query S (Value Product Page)
  unfolding accepted
  use_products = record {
    query_key = lists_key;
    enabled = true;
    query_fn = λ s. or_empty (accepted "Failed to fetch products" (api.get_all s));
  }

  unfoldable pub use_products_paged : ℕ → ℕ → Query S (Value Product Page)
  unfolding accepted
  use_products_paged page_number page_size = record {
    query_key = list_key page_number page_size;
    enabled = true;
    query_fn = λ s.
        map_value paged
          (accepted "Failed to fetch products" (api.get_paged page_number page_size s));
  }

  unfoldable pub use_product : ℕ → Query S (Value Product Page)
  unfolding found
  use_product id = record {
    query_key = detail_key id;
    enabled = not (id == 0);
    query_fn = λ s. map_value product (found "Product not found" (api.get_by_id id s));
  }

  unfoldable pub use_create_product : Command → Mutation S
  unfolding accepted
  use_create_product command = record {
    Answer = Option ℕ;
    mutation_fn = λ s.
        let (reply, after) = api.create command s in
        (accepted "Failed to create product" reply, after);
    invalidates = lists_key ∷ [];
    on_success = some (success "Product created successfully");
    on_error = error_toast "Failed to create product";
  }

  unfoldable pub use_update_product : ℕ → Command → Mutation S
  unfolding accepted
  use_update_product id command = record {
    Answer = Option Bool;
    mutation_fn = λ s.
        let (reply, after) = api.update id command s in
        (accepted "Failed to update product" reply, after);
    invalidates = lists_key ∷ detail_key id ∷ [];
    on_success = some (success "Product updated successfully");
    on_error = error_toast "Failed to update product";
  }

  unfoldable pub use_delete_product : ℕ → Mutation S
  unfolding accepted
  use_delete_product id = record {
    Answer = Option Bool;
    mutation_fn = λ s.
        let (reply, after) = api.delete id s in (accepted "Failed to delete product" reply, after);
    invalidates = lists_key ∷ [];
    on_success = some (success "Product deleted successfully");
    on_error = error_toast "Failed to delete product";
  }

  module _ (client : QueryClient (Value Product Page)) where
    unfoldable pub step : Event Command → Panel client.Cache S → Panel client.Cache S
    unfolding use_query use_mutation use_products use_products_paged use_product use_create_product
        use_update_product use_delete_product
    step opens_products p = use_query client use_products p
    step (opens_page n size) p = use_query client (use_products_paged n size) p
    step (opens_product id) p = use_query client (use_product id) p
    step (creates c) p = use_mutation client (use_create_product c) p
    step (updates id c) p = use_mutation client (use_update_product id c) p
    step (deletes id) p = use_mutation client (use_delete_product id) p

    unfoldable pub run : List (Event Command) → Panel client.Cache S → Panel client.Cache S
    unfolding step
    run [] p = p
    run (e ∷ events) p = run events (step e p)
