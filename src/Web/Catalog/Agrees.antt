-- ===== src/Web/Catalog/Agrees.antt =====
-- useProducts.ts of the shop: what is fresh in the cache, after any requests, is what the server
-- would answer.
use pipeline_azure.Prelude.{
  ℕ, ◌≡◌, ◌≢◌, refl, sym, ◌∙◌, ap, Bool, true, false, ◌||◌, Option, none, some, String, List, [],
  ◌∷◌, arith, Result, ok, throw, nat_eq, string_eq, ◌==◌,
}
use pipeline_azure.Queries.Cache.{QueryClient, key_same, starts_with, segment_same}
use pipeline_azure.Queries.Hooks.{Query, Panel}
use pipeline_azure.Queries.Hooks.Agrees.{
  covers, Spares, Spares-covered, Spares-same, Agrees, use_query-Agrees, use_mutation-Agrees,
}
use pipeline_azure.Web.Catalog.{
  CatalogApi, Value, product, or_not_found, value_of, get_by_id, created, create, updated, update,
  use_products, use_product, use_search_products, use_create_product, use_update_product,
  use_delete_product, Event, opens_products, opens_product, searches, creates, updates, deletes,
  step, run,
}

pub data Asked : Type 0 where
  all : Asked
  one : ℕ → Asked
  found : String → Asked

module _ {New : Type 0} where
  -- A product that is deleted is not asked for again, and every change may change what is found.
  abbrev outdates : Event New → Asked → Bool
  outdates (creates n) (found query) = true
  outdates (updates i n) (found query) = true
  outdates (deletes i) (found query) = true
  outdates (deletes i) (one j) = i == j
  outdates _ _ = false

  unfoldable pub is_outdated : List (Event New) → Asked → Bool
  is_outdated [] q = false
  is_outdated (e ∷ events) q = outdates e q || is_outdated events q

-- A product that was created or changed can be read at once.
pub record ReadsBack {S Product New Page Price : Type 0} (api : CatalogApi S Product New Page Price)
    : Type 0 where
  pub after_create :
      (n : New) (s : S) (i : ℕ)
      → (api.create n s).0 ≡ ok (some i)
      → (p : Product) × (api.get_by_id i (api.create n s).1 ≡ ok (some p))
  pub after_update :
      (i : ℕ) (n : New) (s : S)
      → (api.update i n s).0 ≡ ok tt
      → (p : Product) × (api.get_by_id i (api.update i n s).1 ≡ ok (some p))

module _ {S Product New Page Price : Type 0} (api : CatalogApi S Product New Page Price)
    (not_found : ℕ → String) (no_results : Page) where
  abbrev pub query_of : Asked → Query S (Value Product Page)
  unfolding use_products use_product use_search_products
  query_of all = use_products api not_found no_results
  query_of (one i) = use_product api not_found no_results i
  query_of (found query) = use_search_products api not_found no_results query

  -- One key belongs to one query.
  query_of-same :
      (r q : Asked) (s : S)
      → key_same (query_of r).query_key (query_of q).query_key ≡ true
      → (query_of r).query_fn s ≡ (query_of q).query_fn s
  unfolding use_products use_product use_search_products key_same segment_same
  query_of-same all all s h = refl
  query_of-same all (one j) s h = cc
  query_of-same all (found query) s h = cc
  query_of-same (one j) all s h = cc
  query_of-same (one j) (one k) s h =
      let e : j ≡ k = ground arith in λ i. (query_of (one (e i))).query_fn s
  query_of-same (one j) (found query) s h = cc
  query_of-same (found query) all s h = cc
  query_of-same (found query) (one j) s h = cc
  query_of-same (found a) (found b) s h =
      let e : a ≡ b = ground (arith, string_eq.same_iff a b) in
      λ i. (query_of (found (e i))).query_fn s

  created-unchanged :
      (answer : Result String (Option ℕ)) (s after : S) (e : String)
      → ((x : String) → answer ≡ throw x → after ≡ s)
      → (answer ≡ ok none → after ≡ s)
      → answer ≢ ok (some 0)
      → ((i : ℕ) → answer ≡ ok (some i) → (p : Product) × (api.get_by_id i after ≡ ok (some p)))
      → created api not_found no_results answer after ≡ throw e
      → after ≡ s
  unfolding get_by_id
  created-unchanged (throw x) s after e thrown absent zero_id back h = thrown x refl
  created-unchanged (ok none) s after e thrown absent zero_id back h = absent refl
  created-unchanged (ok (some i)) s after e thrown absent zero_id back h =
      ground (arith, ap (or_not_found api not_found no_results i) (back i refl).1, zero_id)

  updated-unchanged :
      (i : ℕ) (answer : Result String (Unit {0})) (s after : S) (e : String)
      → ((x : String) → answer ≡ throw x → after ≡ s)
      → (answer ≡ ok tt → (p : Product) × (api.get_by_id i after ≡ ok (some p)))
      → updated api not_found no_results i answer after ≡ throw e
      → after ≡ s
  unfolding get_by_id
  updated-unchanged i (throw x) s after e thrown back h = thrown x refl
  updated-unchanged i (ok u) s after e thrown back h =
      ground (arith, ap (or_not_found api not_found no_results i) (back refl).1)

  shown_product : ℕ → Result String (Option Product) → Result String (Option (Value Product Page))
  shown_product i r =
      value_of api not_found no_results product (or_not_found api not_found no_results i r)

  shown_product-ok :
      (i : ℕ) (r : Result String (Option Product)) (v : Value Product Page)
      → shown_product i r ≡ ok (some v)
      → (p : Product) × (r ≡ ok (some p))
  unfolding shown_product
  shown_product-ok i (throw e) v h = absurd (ground arith)
  shown_product-ok i (ok none) v h = absurd (ground arith)
  shown_product-ok i (ok (some p)) v h = (p, refl)

  module _ (back : ReadsBack api) where
    create-unchanged :
        (n : New) (s : S) (e : String)
        → (create api not_found no_results n s).0 ≡ throw e
        → (create api not_found no_results n s).1 ≡ s
    unfolding create
    create-unchanged n s e h =
        created-unchanged (api.create n s).0 s (api.create n s).1 e (api.create-throw n s)
          (api.create-none n s) (api.create-ne-zero n s) (back.after_create n s) h

    update-unchanged :
        (i : ℕ) (n : New) (s : S) (e : String)
        → (update api not_found no_results i n s).0 ≡ throw e
        → (update api not_found no_results i n s).1 ≡ s
    unfolding update
    update-unchanged i n s e h =
        updated-unchanged i (api.update i n s).0 s (api.update i n s).1 e (api.update-throw i n s)
          (back.after_update i n s) h

    Spares-create :
        (n : New) (s : S) (q : Asked)
        → outdates (creates n) q ≡ false
        → Spares (use_create_product api not_found no_results n) (query_of q) s
    unfolding use_create_product use_products use_product use_search_products covers starts_with
        segment_same create get_by_id shown_product
    Spares-create n s all fine = Spares-covered _ _ s (create-unchanged n s) refl
    Spares-create n s (one j) fine = Spares-same _ _ s (create-unchanged n s) (λ v out h.
        let (p, e) = shown_product-ok j (api.get_by_id j s) v h in
        ap (shown_product j) (api.get_by_id-create j n s p e ∙ sym e))
    Spares-create n s (found query) fine = cc

    Spares-update :
        (i : ℕ) (n : New) (s : S) (q : Asked)
        → outdates (updates i n) q ≡ false
        → Spares (use_update_product api not_found no_results i n) (query_of q) s
    unfolding use_update_product use_products use_product use_search_products covers starts_with
        segment_same update get_by_id shown_product
    Spares-update i n s all fine = Spares-covered _ _ s (update-unchanged i n s) refl
    Spares-update i n s (one j) fine =
        Spares-same _ _ s (update-unchanged i n s)
          (λ v out h. ap (shown_product j) (api.get_by_id-update i j n s (ground arith)))
    Spares-update i n s (found query) fine = cc

    Spares-delete :
        (i : ℕ) (s : S) (q : Asked)
        → outdates {New = New} (deletes i) q ≡ false
        → Spares (use_delete_product api not_found no_results i) (query_of q) s
    unfolding use_delete_product use_products use_product use_search_products covers starts_with
        segment_same get_by_id shown_product
    Spares-delete i s all fine = Spares-covered _ _ s (api.delete-throw i s) refl
    Spares-delete i s (one j) fine =
        Spares-same _ _ s (api.delete-throw i s)
          (λ v out h. ap (shown_product j) (api.get_by_id-delete i j s fine))
    Spares-delete i s (found query) fine = cc

    module _ (client : QueryClient (Value Product Page)) where
      step-Agrees :
          (e : Event New) (q : Asked) (p : Panel client.Cache S)
          → outdates e q ≡ false
          → Agrees client (query_of q) p
          → Agrees client (query_of q) (step api not_found no_results client e p)
      unfolding step use_products use_product use_search_products
      step-Agrees opens_products q p fine h =
          use_query-Agrees client (query_of q) (query_of all) p (query_of-same all q p.server) h
      step-Agrees (opens_product i) q p fine h =
          use_query-Agrees client (query_of q) (query_of (one i)) p
            (query_of-same (one i) q p.server) h
      step-Agrees (searches query) q p fine h =
          use_query-Agrees client (query_of q) (query_of (found query)) p
            (query_of-same (found query) q p.server) h
      step-Agrees (creates n) q p fine h =
          use_mutation-Agrees client (query_of q) _ p (Spares-create n p.server q fine) h
      step-Agrees (updates i n) q p fine h =
          use_mutation-Agrees client (query_of q) _ p (Spares-update i n p.server q fine) h
      step-Agrees (deletes i) q p fine h =
          use_mutation-Agrees client (query_of q) _ p (Spares-delete i p.server q fine) h

      run-Agrees :
          (events : List (Event New)) (q : Asked) (p : Panel client.Cache S)
          → is_outdated events q ≡ false
          → Agrees client (query_of q) p
          → Agrees client (query_of q) (run api not_found no_results client events p)
      unfolding run is_outdated
      run-Agrees [] q p fine h = h
      run-Agrees (e ∷ events) q p fine h =
          run-Agrees events q (step api not_found no_results client e p) (ground arith)
            (step-Agrees e q p (ground arith) h)

      -- If a product that was created or changed can be read at once, and what is fresh at first is
      -- what the server would answer: whatever is asked for, created, changed and deleted, what is
      -- fresh afterwards for the list, for a product that was not deleted meanwhile, or for a search
      -- while there was no change, is what the server would answer then.
      pub query_fn-run_catalog :
          (events : List (Event New)) (q : Asked) (p : Panel client.Cache S)
          (v : Value Product Page)
          → is_outdated events q ≡ false
          → Agrees client (query_of q) p
          → client.fresh (run api not_found no_results client events p).cache (query_of q).query_key
            ≡ some v
          → (query_of q).query_fn (run api not_found no_results client events p).server
            ≡ ok (some v)
      query_fn-run_catalog events q p v fine h fresh = run-Agrees events q p fine h v fresh
