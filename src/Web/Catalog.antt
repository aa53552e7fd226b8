-- ===== src/Web/Catalog.antt =====
-- src/Presentation/Web/src/infrastructure/persistence/ProductAPIRepository.ts, and the hooks of
-- src/Presentation/Web/src/presentation/features/product/hooks/useProducts.ts over it. A request
-- throws, or comes back with `response.data.data`. Prices are never computed with.
pub mod Agrees
mod Tests
use pipeline_azure.Prelude.{
  ℕ, ◌≡◌, ◌≢◌, Bool, true, false, not, ◌&&◌, Option, none, some, String, List, [], ◌∷◌, ◌++◌,
  Result, ok, throw, nat_eq, string_eq, ◌==◌, is_truthy, is_truthy?, or_default, if◌then◌else◌,
}
use pipeline_azure.Queries.Cache.{Key, text, number, QueryClient}
use pipeline_azure.Queries.Hooks.{
  Query, Mutation, Panel, use_query, use_mutation, success, error_toast,
}

pub data FilterValue (Price : Type 0) : Type 0 where
  term : String → FilterValue Price
  price : Price → FilterValue Price

pub record Filter (Price : Type 0) : Type 0 where
  pub field : String
  pub operator : String
  pub value : FilterValue Price

pub record Sort : Type 0 where
  pub field : String
  pub dir : String

pub record SearchParams (Price : Type 0) : Type 0 where
  pub query : Option String
  pub category : Option String
  pub min_price : Option Price
  pub max_price : Option Price
  pub sort_by : Option String
  pub sort_order : Option String

pub record SearchBody (Price : Type 0) : Type 0 where
  pub filters : List (Filter Price)
  pub sorts : List Sort

abbrev pub sorts_of : Option String → Option String → List Sort
sorts_of none order = []
sorts_of (some field) order =
    if is_truthy field then record { field = field; dir = or_default order "asc" } ∷ [] else []

module _ {Price : Type 0} where
  -- `if (query) filters.push(…)`
  abbrev pub query_filter : Option String → List (Filter Price)
  query_filter none = []
  query_filter (some q) =
      if is_truthy q
      then record { field = "title"; operator = "contains"; value = term q } ∷ []
      else []

  -- `if (category && category !== 'all')`
  abbrev pub category_filter : Option String → List (Filter Price)
  category_filter none = []
  category_filter (some c) =
      if is_truthy c && not (c == "all")
      then record { field = "category"; operator = "equals"; value = term c } ∷ []
      else []

  -- `if (price !== undefined)`
  abbrev pub price_filter : String → Option Price → List (Filter Price)
  price_filter operator none = []
  price_filter operator (some p) =
      record { field = "price"; operator = operator; value = price p } ∷ []

  unfoldable pub search_body : SearchParams Price → SearchBody Price
  search_body params = record {
    filters =
        query_filter params.query
        ++ category_filter params.category
        ++ price_filter "greaterThanOrEqual" params.min_price
        ++ price_filter "lessThanOrEqual" params.max_price;
    sorts = sorts_of params.sort_by params.sort_order;
  }

-- The server. A request that throws, or that gives no identifier, changes nothing; identifiers are
-- not 0; and a request that is about one product changes no other.
pub record CatalogApi (S Product New Page Price : Type 0) : Type 0 where
  pub get_all : S → Result String (Option (List Product))
  pub get_by_id : ℕ → S → Result String (Option Product)
  pub search : SearchBody Price → S → Result String (Option Page)
  pub create : New → S → Result String (Option ℕ) × S
  pub update : ℕ → New → S → Result String (Unit {0}) × S
  pub delete : ℕ → S → Result String (Unit {0}) × S
  pub create-throw : (n : New) (s : S) (e : String) → (create n s).0 ≡ throw e → (create n s).1 ≡ s
  pub create-none : (n : New) (s : S) → (create n s).0 ≡ ok none → (create n s).1 ≡ s
  pub create-ne-zero : (n : New) (s : S) → (create n s).0 ≢ ok (some 0)
  pub update-throw :
      (i : ℕ) (n : New) (s : S) (e : String) → (update i n s).0 ≡ throw e → (update i n s).1 ≡ s
  pub delete-throw : (i : ℕ) (s : S) (e : String) → (delete i s).0 ≡ throw e → (delete i s).1 ≡ s
  pub get_by_id-create :
      (j : ℕ) (n : New) (s : S) (p : Product)
      → get_by_id j s ≡ ok (some p)
      → get_by_id j (create n s).1 ≡ ok (some p)
  pub get_by_id-update :
      (i j : ℕ) (n : New) (s : S) → (i == j) ≡ false → get_by_id j (update i n s).1 ≡ get_by_id j s
  pub get_by_id-delete :
      (i j : ℕ) (s : S) → (i == j) ≡ false → get_by_id j (delete i s).1 ≡ get_by_id j s

-- `search` is called with a `query` alone.
abbrev pub query_params : {Price : Type 0} → String → SearchParams Price
query_params query = record {
  query = some query;
  category = none;
  min_price = none;
  max_price = none;
  sort_by = none;
  sort_order = none;
}

-- What the hooks keep in the cache.
pub data Value (Product Page : Type 0) : Type 0 where
  products : List Product → Value Product Page
  product : Product → Value Product Page
  results : Page → Value Product Page

abbrev pub lists_key : Key
lists_key = text "products" ∷ text "list" ∷ []

abbrev pub detail_key : ℕ → Key
detail_key id = text "products" ∷ text "detail" ∷ number id ∷ []

abbrev pub search_key : String → Key
search_key query = text "products" ∷ text "search" ∷ text query ∷ []

pub data Event (New : Type 0) : Type 0 where
  opens_products : Event New
  opens_product : ℕ → Event New
  searches : String → Event New
  creates : New → Event New
  updates : ℕ → New → Event New
  deletes : ℕ → Event New

-- `not_found id` is the text `Product with ID ${id} not found`, and `no_results` the empty page.
module _ {S Product New Page Price : Type 0} (api : CatalogApi S Product New Page Price)
    (not_found : ℕ → String) (no_results : Page) where
  abbrev pub or_empty : Result String (Option (List Product)) → Result String (List Product)
  or_empty (throw e) = throw e
  or_empty (ok none) = ok []
  or_empty (ok (some l)) = ok l

  unfoldable pub get_all : S → Result String (List Product)
  get_all s = or_empty (api.get_all s)

  abbrev pub or_not_found : ℕ → Result String (Option Product) → Result String Product
  or_not_found id (throw e) = throw e
  or_not_found id (ok none) = throw (not_found id)
  or_not_found id (ok (some p)) = ok p

  unfoldable pub get_by_id : ℕ → S → Result String Product
  get_by_id id s = or_not_found id (api.get_by_id id s)

  abbrev pub or_no_results : Result String (Option Page) → Result String Page
  or_no_results (throw e) = throw e
  or_no_results (ok none) = ok no_results
  or_no_results (ok (some page)) = ok page

  unfoldable pub search : SearchParams Price → S → Result String Page
  unfolding search_body
  search params s = or_no_results (api.search (search_body params) s)

  -- What `create` makes of the answer, with the server after it.
  abbrev pub created : Result String (Option ℕ) → S → Result String Product
  unfolding get_by_id
  created (throw e) s = throw e
  created (ok none) s = throw "Failed to create product"
  created (ok (some id)) s = if id == 0 then throw "Failed to create product" else get_by_id id s

  unfoldable pub create : New → S → Result String Product × S
  unfolding get_by_id created
  create new s = let (answer, after) = api.create new s in (created answer after, after)

  abbrev pub updated : ℕ → Result String (Unit {0}) → S → Result String Product
  unfolding get_by_id
  updated id (throw e) s = throw e
  updated id (ok u) s = get_by_id id s

  unfoldable pub update : ℕ → New → S → Result String Product × S
  unfolding get_by_id updated
  update id new s = let (answer, after) = api.update id new s in (updated id answer after, after)

  abbrev pub value_of :
      {A : Type 0}
      → (A → Value Product Page)
      → Result String A
      → Result String (Option (Value Product Page))
  value_of f (throw e) = throw e
  value_of f (ok a) = ok (some (f a))

  unfoldable pub use_products : Query S (Value Product Page)
  unfolding get_all
  use_products = record {
    query_key = lists_key;
    enabled = true;
    query_fn = λ s. value_of products (get_all s);
  }

  unfoldable pub use_product : ℕ → Query S (Value Product Page)
  unfolding get_by_id
  use_product id = record {
    query_key = detail_key id;
    enabled = not (id == 0);
    query_fn = λ s. value_of product (get_by_id id s);
  }

  unfoldable pub use_search_products : String → Query S (Value Product Page)
  unfolding search
  use_search_products query = record {
    query_key = search_key query;
    enabled = is_truthy query;
    query_fn = λ s. value_of results (search (query_params query) s);
  }

  unfoldable pub use_create_product : New → Mutation S
  unfolding create
  use_create_product new = record {
    Answer = Product;
    mutation_fn = create new;
    invalidates = lists_key ∷ [];
    on_success = some (success "Product created successfully");
    on_error = error_toast "Failed to create product";
  }

  unfoldable pub use_update_product : ℕ → New → Mutation S
  unfolding update
  use_update_product id new = record {
    Answer = Product;
    mutation_fn = update id new;
    invalidates = detail_key id ∷ lists_key ∷ [];
    on_success = some (success "Product updated successfully");
    on_error = error_toast "Failed to update product";
  }

  unfoldable pub use_delete_product : ℕ → Mutation S
  use_delete_product id = record {
    Answer = Unit {0};
    mutation_fn = api.delete id;
    invalidates = lists_key ∷ [];
    on_success = some (success "Product deleted successfully");
    on_error = error_toast "Failed to delete product";
  }

  module _ (client : QueryClient (Value Product Page)) where
    unfoldable pub step : Event New → Panel client.Cache S → Panel client.Cache S
    unfolding use_query use_mutation use_products use_product use_search_products use_create_product
        use_update_product use_delete_product
    step opens_products p = use_query client use_products p
    step (opens_product id) p = use_query client (use_product id) p
    step (searches query) p = use_query client (use_search_products query) p
    step (creates new) p = use_mutation client (use_create_product new) p
    step (updates id new) p = use_mutation client (use_update_product id new) p
    step (deletes id) p = use_mutation client (use_delete_product id) p

    unfoldable pub run : List (Event New) → Panel client.Cache S → Panel client.Cache S
    unfolding step
    run [] p = p
    run (e ∷ events) p = run events (step e p)
