-- ===== src/Admin/Carts/Tests.antt =====
-- useCarts.ts on a small server.
use pipeline_azure.Prelude.{
  ℕ, ◌≡◌, refl, true, Option, none, some, List, [], ◌∷◌, throw, nat_eq, string_eq,
}
use pipeline_azure.Queries.Cache.{plain_client, key_same, starts_with, segment_same, Key}
use pipeline_azure.Queries.Hooks.{Panel, success, error, use_query, use_mutation, invalidate_all}
use pipeline_azure.Admin.Api.{is_accepted, accepted, found}
use pipeline_azure.Admin.Api.Shop.{
  Shop, accept, reply, put, sent_or_not, not_sent, sent-other, sent-none,
}
use pipeline_azure.Admin.Carts.{
  false, CartsApi, Value, cart, Event, opens_carts, opens_cart, creates, updates, deletes,
  deletes_all, use_carts, use_cart, use_create_cart, use_update_cart, use_delete_cart, step, run,
  detail_key,
}

abbrev nothing : Shop
nothing = ((λ i. none), [])

all_deleted : (s : Shop) → is_accepted (accept true) ≡ false → nothing ≡ s
all_deleted s h = cc

abbrev shop_api : CartsApi Shop ℕ ℕ
shop_api = record {
  get_all = λ s. accept s.1;
  get_by_id = λ i s. reply (s.0 i);
  create = λ c s. sent_or_not 7 c s (s.0, c ∷ s.1);
  update = λ i c s. sent_or_not true c s (put i (some c) s);
  delete = λ i s. sent_or_not true i s (put i none s);
  delete_all = λ s. (accept true, nothing);
  create-refused = λ c s. not_sent 7 c s (s.0, c ∷ s.1);
  update-refused = λ i c s. not_sent true c s (put i (some c) s);
  delete-refused = λ i s. not_sent true i s (put i none s);
  delete_all-refused = λ s. all_deleted s;
  get_by_id-create = λ j c s h. sent-none 7 j c s;
  get_by_id-update = λ i j c s. sent-other true i j c (some c) s;
  get_by_id-delete = λ i j s. sent-other true i j i none s;
}

abbrev empty : Panel (Key → Option (Value ℕ)) Shop
empty = record { cache = λ k. none; server = (λ i. some i, []); effects = [] }

abbrev requests : List (Event ℕ)
requests =
    opens_cart 3
    ∷ opens_carts
    ∷ updates 4 6
    ∷ updates 4 0
    ∷ opens_carts
    ∷ creates 0
    ∷ deletes 2
    ∷ opens_cart 3
    ∷ []

-- Each request shows one text.
effects_example :
    (run shop_api (plain_client _) requests empty).effects
    ≡ success "Cart updated successfully"
      ∷ error "no"
      ∷ error "no"
      ∷ success "Cart deleted successfully"
      ∷ []
unfolding run step use_query use_mutation use_carts use_cart use_create_cart use_update_cart
    use_delete_cart accepted found
effects_example = refl

-- A cart that was read, before all are deleted, is still fresh, though the server does not find it.
deleted_example :
    let p = run shop_api (plain_client _) (opens_cart 3 ∷ deletes_all ∷ []) empty in
    (p.cache (detail_key 3) ≡ some (cart 3))
    × ((use_cart shop_api 3).query_fn p.server ≡ throw "no")
unfolding run step use_query use_mutation use_cart use_delete_cart accepted found invalidate_all
    key_same starts_with segment_same
deleted_example = (refl, refl)
