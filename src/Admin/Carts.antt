-- ===== src/Admin/Carts.antt =====
-- src/Presentation/Admin/src/hooks/useCarts.ts over src/Presentation/Admin/src/lib/api/carts.ts
-- The server is a parameter, with what it promises of its requests.
pub mod Agrees
mod Tests
use pipeline_azure.Prelude.{
  ℕ, ◌≡◌, Bool, true, false, not, Option, none, some, String, List, [], ◌∷◌, Result, ok, throw,
  nat_eq, ◌==◌,
}
use pipeline_azure.Queries.Cache.{Key, text, number, QueryClient}
use pipeline_azure.Queries.Hooks.{
  error_toast, Query, Mutation, Panel, use_query, use_mutation, success,
}
use pipeline_azure.Admin.Api.{Reply, is_accepted, accepted, found}

-- A request that is not accepted changes nothing, and one that is about one cart changes no
-- other.
pub record CartsApi (S Cart Command : Type 0) : Type 0 where
  pub get_all : S → Reply (List Cart)
  pub get_by_id : ℕ → S → Reply Cart
  pub create : Command → S → Reply ℕ × S
  pub update : ℕ → Command → S → Reply Bool × S
  pub delete : ℕ → S → Reply Bool × S
  pub delete_all : S → Reply Bool × S
  pub create-refused :
      (c : Command) (s : S) → is_accepted (create c s).0 ≡ false → (create c s).1 ≡ s
  pub update-refused :
      (i : ℕ) (c : Command) (s : S) → is_accepted (update i c s).0 ≡ false → (update i c s).1 ≡ s
  pub delete-refused : (i : ℕ) (s : S) → is_accepted (delete i s).0 ≡ false → (delete i s).1 ≡ s
  pub delete_all-refused : (s : S) → is_accepted (delete_all s).0 ≡ false → (delete_all s).1 ≡ s
  pub get_by_id-create :
      (j : ℕ) (c : Command) (s : S)
      → is_accepted (get_by_id j s) ≡ true
      → get_by_id j (create c s).1 ≡ get_by_id j s
  pub get_by_id-update :
      (i j : ℕ) (c : Command) (s : S)
      → (i == j) ≡ false
      → get_by_id j (update i c s).1 ≡ get_by_id j s
  pub get_by_id-delete :
      (i j : ℕ) (s : S) → (i == j) ≡ false → get_by_id j (delete i s).1 ≡ get_by_id j s

abbrev pub lists_key : Key
lists_key = text "carts" ∷ text "list" ∷ []

abbrev pub detail_key : ℕ → Key
detail_key id = text "carts" ∷ text "detail" ∷ number id ∷ []

-- What the hooks keep in the cache.
pub data Value (Cart : Type 0) : Type 0 where
  carts : List Cart → Value Cart
  cart : Cart → Value Cart

pub data Event (Command : Type 0) : Type 0 where
  opens_carts : Event Command
  opens_cart : ℕ → Event Command
  creates : Command → Event Command
  updates : ℕ → Command → Event Command
  deletes : ℕ → Event Command
  deletes_all : Event Command

module _ {S Cart Command : Type 0} (api : CartsApi S Cart Command) where
  -- `result.data || []`
  abbrev pub or_empty : Result String (Option (List Cart)) → Result String (Option (Value Cart))
  or_empty (throw e) = throw e
  or_empty (ok none) = ok (some (carts []))
  or_empty (ok (some l)) = ok (some (carts l))

  abbrev pub map_value :
      {A : Type 0}
      → (A → Value Cart)
      → Result String (Option A)
      → Result String (Option (Value Cart))
  map_value f (throw e) = throw e
  map_value f (ok none) = ok none
  map_value f (ok (some a)) = ok (some (f a))

  unfoldable pub use_carts : Query S (Value Cart)
  unfolding accepted
  use_carts = record {
    query_key = lists_key;
    enabled = true;
    query_fn = λ s. or_empty (accepted "Failed to fetch carts" (api.get_all s));
  }

  unfoldable pub use_cart : ℕ → Query S (Value Cart)
  unfolding found
  use_cart id = record {
    query_key = detail_key id;
    enabled = not (id == 0);
    query_fn = λ s. map_value cart (found "Cart not found" (api.get_by_id id s));
  }

  unfoldable pub use_create_cart : Command → Mutation S
  unfolding accepted
  use_create_cart command = record {
    Answer = Option ℕ;
    mutation_fn = λ s.
        let (reply, after) = api.create command s in
        (accepted "Failed to create cart" reply, after);
    invalidates = lists_key ∷ [];
    on_success = some (success "Cart created successfully");
    on_error = error_toast "Failed to create cart";
  }

  unfoldable pub use_update_cart : ℕ → Command → Mutation S
  unfolding accepted
  use_update_cart id command = record {
    Answer = Option Bool;
    mutation_fn = λ s.
        let (reply, after) = api.update id command s in
        (accepted "Failed to update cart" reply, after);
    invalidates = lists_key ∷ detail_key id ∷ [];
    on_success = some (success "Cart updated successfully");
    on_error = error_toast "Failed to update cart";
  }

  unfoldable pub use_delete_cart : ℕ → Mutation S
  unfolding accepted
  use_delete_cart id = record {
    Answer = Option Bool;
    mutation_fn = λ s.
        let (reply, after) = api.delete id s in (accepted "Failed to delete cart" reply, after);
    invalidates = lists_key ∷ [];
    on_success = some (success "Cart deleted successfully");
    on_error = error_toast "Failed to delete cart";
  }

  unfoldable pub use_delete_all_carts : Mutation S
  unfolding accepted
  use_delete_all_carts = record {
    Answer = Option Bool;
    mutation_fn = λ s.
        let (reply, after) = api.delete_all s in
        (accepted "Failed to delete all carts" reply, after);
    invalidates = lists_key ∷ [];
    on_success = some (success "All carts deleted successfully");
    on_error = error_toast "Failed to delete all carts";
  }

  module _ (client : QueryClient (Value Cart)) where
    unfoldable pub step : Event Command → Panel client.Cache S → Panel client.Cache S
    unfolding use_query use_mutation use_carts use_cart use_create_cart use_update_cart
        use_delete_cart use_delete_all_carts
    step opens_carts p = use_query client use_carts p
    step (opens_cart id) p = use_query client (use_cart id) p
    step (creates c) p = use_mutation client (use_create_cart c) p
    step (updates id c) p = use_mutation client (use_update_cart id c) p
    step (deletes id) p = use_mutation client (use_delete_cart id) p
    step deletes_all p = use_mutation client use_delete_all_carts p

    unfoldable pub run : List (Event Command) → Panel client.Cache S → Panel client.Cache S
    unfolding step
    run [] p = p
    run (e ∷ events) p = run events (step e p)
