-- ===== src/Admin/Products/Tests.antt =====
-- useProducts.ts on a small server.
use pipeline_azure.Prelude.{
  ℕ, ◌≡◌, refl, true, Option, none, some, List, [], ◌∷◌, ok, throw, nat_eq, string_eq,
}
use pipeline_azure.Queries.Cache.{plain_client, key_same, starts_with, segment_same, Key}
use pipeline_azure.Queries.Hooks.{Panel, success, error, use_query, use_mutation, invalidate_all}
use pipeline_azure.Admin.Api.{accepted, found}
use pipeline_azure.Admin.Api.Shop.{
  Shop, accept, refuse, reply, put, sent_or_not, not_sent, sent-other, sent-none,
}
use pipeline_azure.Admin.Products.{
  ProductsApi, Value, product, Event, opens_products, opens_product, creates, updates, deletes,
  use_products, use_product, use_create_product, use_update_product, use_delete_product, step, run,
  detail_key,
}
use pipeline_azure.Admin.Products.Agrees.{one, query_of, is_outdated, query_fn-run_products}

abbrev shop_api : ProductsApi Shop ℕ ℕ ℕ
shop_api = record {
  get_all = λ s. accept s.1;
  get_paged = λ n size s. refuse;
  get_by_id = λ i s. reply (s.0 i);
  create = λ c s. sent_or_not 7 c s (s.0, c ∷ s.1);
  update = λ i c s. sent_or_not true c s (put i (some c) s);
  delete = λ i s. sent_or_not true i s (put i none s);
  create-refused = λ c s. not_sent 7 c s (s.0, c ∷ s.1);
  update-refused = λ i c s. not_sent true c s (put i (some c) s);
  delete-refused = λ i s. not_sent true i s (put i none s);
  get_by_id-create = λ j c s h. sent-none 7 j c s;
  get_by_id-update = λ i j c s. sent-other true i j c (some c) s;
  get_by_id-delete = λ i j s. sent-other true i j i none s;
}

abbrev empty : Panel (Key → Option (Value ℕ ℕ)) Shop
empty = record { cache = λ k. none; server = (λ i. some i, []); effects = [] }

abbrev requests : List (Event ℕ)
requests =
    opens_product 3
    ∷ opens_products
    ∷ updates 4 6
    ∷ updates 4 0
    ∷ opens_products
    ∷ creates 0
    ∷ deletes 2
    ∷ opens_product 3
    ∷ []

query_fn-run_products_example :
    (query_of shop_api (one 3)).query_fn (run shop_api (plain_client _) requests empty).server
    ≡ ok (some (product 3))
unfolding run step use_query use_mutation use_products use_product use_create_product
    use_update_product use_delete_product accepted found invalidate_all key_same starts_with
    segment_same is_outdated
query_fn-run_products_example =
    query_fn-run_products shop_api (plain_client _) requests (one 3) empty (product 3) refl
      (λ v h. cc) refl

-- Each request shows one text.
effects_example :
    (run shop_api (plain_client _) requests empty).effects
    ≡ success "Product updated successfully"
      ∷ error "no"
      ∷ error "no"
      ∷ success "Product deleted successfully"
      ∷ []
unfolding run step use_query use_mutation use_products use_product use_create_product
    use_update_product use_delete_product accepted found
effects_example = refl

-- A product that was read and then deleted is still fresh, though the server does not find it.
deleted_product_example :
    let p = run shop_api (plain_client _) (opens_product 3 ∷ deletes 3 ∷ []) empty in
    (p.cache (detail_key 3) ≡ some (product 3))
    × ((use_product shop_api 3).query_fn p.server ≡ throw "no")
unfolding run step use_query use_mutation use_product use_delete_product accepted found
    invalidate_all key_same starts_with segment_same
deleted_product_example = (refl, refl)
