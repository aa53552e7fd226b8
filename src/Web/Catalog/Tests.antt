-- ===== src/Web/Catalog/Tests.antt =====
-- The products of the web shop on a small server, whose products are numbers.
use pipeline_azure.Prelude.{
  ap, ℕ, ◌≡◌, refl, arith, false, Option, none, some, String, List, [], ◌∷◌, Result, ok, throw,
  nat_eq, ◌==◌, if◌then◌else◌,
}
use pipeline_azure.Queries.Cache.{plain_client, key_same, starts_with, segment_same, Key}
use pipeline_azure.Queries.Hooks.{Panel, success, error, use_query, use_mutation, invalidate_all}
use pipeline_azure.Web.Catalog.{
  CatalogApi, Value, product, results, term, price, search_body, Event, opens_products,
  opens_product, searches, creates, updates, deletes, get_by_id, get_all, search, create, update,
  use_products, use_product, use_search_products, use_create_product, use_update_product,
  use_delete_product, step, run, search_key,
}
use pipeline_azure.Web.Catalog.Agrees.{ReadsBack, one, query_of, is_outdated, query_fn-run_catalog}

-- The first product, the numbers that were added, and the other products, none.
abbrev Shop : Type 0
Shop = (ℕ → Option ℕ) × List ℕ

abbrev put : ℕ → Option ℕ → Shop → Shop
put i o s = ((λ j. if i == j then o else s.0 j), i ∷ s.1)

put_self : (i n : ℕ) (s : Shop) → (put i (some n) s).0 i ≡ some n
put_self i n s = ground arith

put-other : (i j : ℕ) (o : Option ℕ) (s : Shop) → (i == j) ≡ false → (put i o s).0 j ≡ s.0 j
put-other i j o s h = rw h refl

-- A new product takes the identifier 9, unless that is taken.
abbrev add : ℕ → Option ℕ → Shop → Result String (Option ℕ) × Shop
add n none s = (ok (some 9), put 9 (some n) s)
add n (some taken) s = (throw "full", s)

add-throw :
    (n : ℕ) (o : Option ℕ) (s : Shop) (e : String) → (add n o s).0 ≡ throw e → (add n o s).1 ≡ s
add-throw n none s e h = cc
add-throw n (some taken) s e h = refl

add-none : (n : ℕ) (o : Option ℕ) (s : Shop) → (add n o s).0 ≡ ok none → (add n o s).1 ≡ s
add-none n none s h = cc
add-none n (some taken) s h = refl

add-ne-zero : (n : ℕ) (o : Option ℕ) (s : Shop) → (add n o s).0 ≡ ok (some 0) → ⊥
add-ne-zero n none s h = ground arith
add-ne-zero n (some taken) s h = cc

abbrev wrap : Option ℕ → Result String (Option ℕ)
wrap o = ok o

abbrev accepted_all : Result String (Unit {0})
accepted_all = ok tt

add-keeps :
    (j n : ℕ) (s : Shop) (p : ℕ) (o : Option ℕ)
    → s.0 9 ≡ o
    → wrap (s.0 j) ≡ ok (some p)
    → wrap ((add n o s).1.0 j) ≡ ok (some p)
add-keeps j n s p none free h = ground (arith, free, h)
add-keeps j n s p (some taken) free h = h

done-throw : (s after : Shop) (e : String) → accepted_all ≡ throw e → after ≡ s
done-throw s after e h = cc

add-back :
    (n : ℕ) (s : Shop) (i : ℕ) (o : Option ℕ)
    → (add n o s).0 ≡ ok (some i)
    → (p : ℕ) × ((add n o s).1.0 i ≡ some p)
add-back n s i none h = (n, ground arith)
add-back n s i (some taken) h = absurd (ground arith)

abbrev shop_api : CatalogApi Shop ℕ ℕ ℕ ℕ
shop_api = record {
  get_all = λ s. ok (some s.1);
  get_by_id = λ i s. ok (s.0 i);
  search = λ body s. ok none;
  create = λ n s. add n (s.0 9) s;
  update = λ i n s. (ok tt, put i (some n) s);
  delete = λ i s. (ok tt, put i none s);
  create-throw = λ n s. add-throw n (s.0 9) s;
  create-none = λ n s. add-none n (s.0 9) s;
  create-ne-zero = λ n s. add-ne-zero n (s.0 9) s;
  update-throw = λ i n s. done-throw s (put i (some n) s);
  delete-throw = λ i s. done-throw s (put i none s);
  get_by_id-create = λ j n s p. add-keeps j n s p (s.0 9) refl;
  get_by_id-update = λ i j n s h. ap ok (put-other i j (some n) s h);
  get_by_id-delete = λ i j s h. ap ok (put-other i j none s h);
}

shop_back : ReadsBack shop_api
shop_back = record {
  after_create = λ n s i h. let (p, e) = add-back n s i (s.0 9) h in (p, ap ok e);
  after_update = λ i n s h. (n, ap ok (put_self i n s));
}

abbrev empty : Panel (Key → Option (Value ℕ ℕ)) Shop
empty = record {
  cache = λ k. none;
  server = (λ i. if i == 3 then some 30 else none, []);
  effects = [];
}

abbrev no_text : ℕ → String
no_text i = "not found"

abbrev requests : List (Event ℕ)
requests =
    opens_product 3
    ∷ opens_products
    ∷ searches "mug"
    ∷ creates 5
    ∷ creates 6
    ∷ updates 4 8
    ∷ deletes 9
    ∷ []

query_fn-run_catalog_example :
    (query_of shop_api no_text 0 (one 3)).query_fn
      (run shop_api no_text 0 (plain_client _) requests empty).server
    ≡ ok (some (product 30))
unfolding run step use_query use_mutation use_products use_product use_search_products
    use_create_product use_update_product use_delete_product create update get_by_id get_all search
    invalidate_all key_same starts_with segment_same is_outdated
query_fn-run_catalog_example =
    query_fn-run_catalog shop_api no_text 0 shop_back (plain_client _) requests (one 3) empty
      (product 30) refl (λ v h. cc) refl

effects_example :
    (run shop_api no_text 0 (plain_client _) requests empty).effects
    ≡ success "Product created successfully"
      ∷ error "full"
      ∷ success "Product updated successfully"
      ∷ success "Product deleted successfully"
      ∷ []
unfolding run step use_query use_mutation use_products use_product use_search_products
    use_create_product use_update_product use_delete_product create update get_by_id get_all search
effects_example = refl

-- What was found stays fresh when a product is added.
search_example :
    (run shop_api no_text 0 (plain_client _) (searches "mug" ∷ creates 5 ∷ []) empty).cache
      (search_key "mug")
    ≡ some (results 0)
unfolding run step use_query use_mutation use_search_products use_create_product create get_by_id
    search invalidate_all key_same starts_with segment_same
search_example = refl

search_body_example :
    search_body {Price = ℕ} (record {
      query = some "mug";
      category = some "all";
      min_price = some 5;
      max_price = none;
      sort_by = some "price";
      sort_order = none;
    })
    ≡ record {
      filters =
          record { field = "title"; operator = "contains"; value = term "mug" }
          ∷ record { field = "price"; operator = "greaterThanOrEqual"; value = price 5 }
          ∷ [];
      sorts = record { field = "price"; dir = "asc" } ∷ [];
    }
unfolding search_body
search_body_example = refl
