-- ===== src/Web/Basket/Agrees.antt =====
-- useCart.ts: the cart that is shown is that of the server.
use pipeline_azure.Prelude.{
  ℕ, ◌≡◌, refl, sym, ◌∙◌, ap, Bool, true, false, Option, none, some, String, List, [], ◌∷◌, arith,
  Result, ok, throw,
}
use pipeline_azure.Queries.Cache.{QueryClient, Shown, starts_with, segment_same}
use pipeline_azure.Queries.Hooks.{Mutation, Panel, use_mutation}
use pipeline_azure.Queries.Hooks.Agrees.{
  covers, Spares-covered, Agrees, use_query-Agrees, use_mutation-Agrees,
}
use pipeline_azure.Web.Basket.{
  CartItem, CartApi, cart_key, Event, opens, adds, updates, removes, clears, get_all, with_id, add,
  kept_item, update, value_of, use_cart, add_to_cart, update_cart_item, remove_from_cart,
  clear_cart, cart_items, or_no_items, step, run,
}

module _ {S Details : Type 0} (api : CartApi S Details) where
  with_id-throw :
      (d : Details) (answer : Result String (Option (Option ℕ))) (s after : S) (e : String)
      → ((x : String) → answer ≡ throw x → after ≡ s)
      → (answer ≡ ok none → after ≡ s)
      → with_id api d answer ≡ throw e
      → after ≡ s
  with_id-throw d (throw x) s after e thrown absent h = thrown x refl
  with_id-throw d (ok none) s after e thrown absent h = absent refl
  with_id-throw d (ok (some i)) s after e thrown absent h = cc

  kept_item-throw :
      (i : CartItem Details) (answer : Result String (Unit {0})) (e : String)
      → kept_item api i answer ≡ throw e
      → answer ≡ throw e
  kept_item-throw i (throw x) e h = ground arith
  kept_item-throw i (ok u) e h = cc

  added-throw :
      (logged_in : Bool) (d : Details) (s : S) (e : String)
      → ((add_to_cart api logged_in d).mutation_fn s).0 ≡ throw e
      → ((add_to_cart api logged_in d).mutation_fn s).1 ≡ s
  unfolding add_to_cart add
  added-throw true d s e h =
      with_id-throw d (api.post d s).0 s (api.post d s).1 e (api.post-throw d s) (api.post-none d s)
        h
  added-throw false d s e h = refl

  module _ (client : QueryClient (List (CartItem Details))) where
    -- A mutation that invalidates the cart, and changes nothing if it throws.
    mutation-Agrees :
        (m : Mutation S) (p : Panel client.Cache S)
        → covers m.invalidates cart_key ≡ true
        → ((e : String)
            → (m.mutation_fn p.server).0 ≡ throw e
            → (m.mutation_fn p.server).1 ≡ p.server)
        → Agrees client (use_cart api) p
        → Agrees client (use_cart api) (use_mutation client m p)
    unfolding use_cart
    mutation-Agrees m p covered refused h =
        use_mutation-Agrees client (use_cart api) m p
          (Spares-covered m (use_cart api) p.server refused covered) h

    step-Agrees :
        (e : Event Details) (p : Panel client.Cache S)
        → Agrees client (use_cart api) p
        → Agrees client (use_cart api) (step api client e p)
    unfolding step add_to_cart update_cart_item remove_from_cart clear_cart update covers
        starts_with segment_same
    step-Agrees opens p h = use_query-Agrees client (use_cart api) (use_cart api) p (λ same. refl) h
    step-Agrees (adds logged_in d) p h =
        mutation-Agrees (add_to_cart api logged_in d) p refl (added-throw logged_in d p.server) h
    step-Agrees (updates i) p h =
        mutation-Agrees (update_cart_item api i) p refl
          (λ e t. api.put-throw i p.server e (kept_item-throw i (api.put i p.server).0 e t)) h
    step-Agrees (removes id) p h =
        mutation-Agrees (remove_from_cart api id) p refl (api.delete-throw id p.server) h
    step-Agrees clears p h =
        mutation-Agrees (clear_cart api) p refl (api.delete_all-throw p.server) h

    run-Agrees :
        (events : List (Event Details)) (p : Panel client.Cache S)
        → Agrees client (use_cart api) p
        → Agrees client (use_cart api) (run api client events p)
    unfolding run
    run-Agrees [] p h = h
    run-Agrees (e ∷ events) p h = run-Agrees events (step api client e p) (step-Agrees e p h)

    value_of-ok :
        (r : Result String (List (CartItem Details))) (items : List (CartItem Details))
        → value_of api r ≡ ok (some items)
        → r ≡ ok items
    value_of-ok (throw e) items h = cc
    value_of-ok (ok l) items h = ground arith

    -- If what is fresh at first is the cart of the server: after any additions, changes and removals,
    -- of one item or of all, refused or not and logged in or not, the items that are shown are those
    -- of the server, if there are fresh ones (items that were invalidated stay on screen until then).
    pub cart_items-run :
        (shown : Shown client) (events : List (Event Details)) (p : Panel client.Cache S)
        (items : List (CartItem Details))
        → Agrees client (use_cart api) p
        → client.fresh (run api client events p).cache cart_key ≡ some items
        → get_all api (run api client events p).server
          ≡ ok (cart_items api client shown (run api client events p))
    unfolding cart_items use_cart
    cart_items-run shown events p items h fresh =
        value_of-ok _ items (run-Agrees events p h items fresh)
        ∙ ap ok (sym (ap (or_no_items api client) (shown.query_data-fresh _ cart_key items fresh)))
