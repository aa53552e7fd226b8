-- ===== src/Admin/Carts/Agrees.antt =====
-- useCarts.ts: what is fresh in the cache, after any requests, is what the server would answer.
use pipeline_azure.Prelude.{
  ℕ, ◌≡◌, refl, ap, Bool, true, false, ◌||◌, Option, some, String, List, [], ◌∷◌, arith, Result, ok,
  throw, nat_eq, string_eq, ◌==◌,
}
use pipeline_azure.Queries.Cache.{QueryClient, key_same, starts_with, segment_same}
use pipeline_azure.Queries.Hooks.{Query, Panel}
use pipeline_azure.Queries.Hooks.Agrees.{
  covers, Spares, Spares-covered, Spares-same, Agrees, use_query-Agrees, use_mutation-Agrees,
}
use pipeline_azure.Admin.Api.{Reply, is_accepted, accepted, found, accepted-throw}
use pipeline_azure.Admin.Carts.{
  CartsApi, Value, cart, map_value, use_carts, use_cart, use_create_cart, use_update_cart,
  use_delete_cart, use_delete_all_carts, Event, opens_carts, opens_cart, creates, updates, deletes,
  deletes_all, step, run,
}

pub data Asked : Type 0 where
  all : Asked
  one : ℕ → Asked

module _ {Command : Type 0} where
  -- A cart that is deleted is not asked for again.
  abbrev outdates : Event Command → Asked → Bool
  outdates (deletes i) (one j) = i == j
  outdates deletes_all (one j) = true
  outdates _ _ = false

  unfoldable pub is_outdated : List (Event Command) → Asked → Bool
  is_outdated [] q = false
  is_outdated (e ∷ events) q = outdates e q || is_outdated events q

module _ {S Cart Command : Type 0} (api : CartsApi S Cart Command) where
  abbrev pub query_of : Asked → Query S (Value Cart)
  unfolding use_carts use_cart
  query_of all = use_carts api
  query_of (one i) = use_cart api i

  found-is_accepted :
      (text : String) (r : Reply Cart) (v : Value Cart)
      → map_value api cart (found text r) ≡ ok (some v)
      → is_accepted r ≡ true
  unfolding found
  found-is_accepted text (throw e) v h = ground arith
  found-is_accepted text (ok r) v h = ground arith

  -- One key belongs to one query.
  query_of-same :
      (r q : Asked) (s : S)
      → key_same (query_of r).query_key (query_of q).query_key ≡ true
      → (query_of r).query_fn s ≡ (query_of q).query_fn s
  unfolding use_carts use_cart key_same segment_same
  query_of-same all all s h = refl
  query_of-same all (one j) s h = cc
  query_of-same (one j) all s h = cc
  query_of-same (one j) (one k) s h =
      let e : j ≡ k = ground arith in λ i. (query_of (one (e i))).query_fn s

  create-unchanged :
      (c : Command) (s : S) (e : String)
      → accepted "Failed to create cart" (api.create c s).0 ≡ throw e
      → (api.create c s).1 ≡ s
  create-unchanged c s e h = api.create-refused c s (accepted-throw _ e (api.create c s).0 h)

  update-unchanged :
      (i : ℕ) (c : Command) (s : S) (e : String)
      → accepted "Failed to update cart" (api.update i c s).0 ≡ throw e
      → (api.update i c s).1 ≡ s
  update-unchanged i c s e h = api.update-refused i c s (accepted-throw _ e (api.update i c s).0 h)

  delete-unchanged :
      (i : ℕ) (s : S) (e : String)
      → accepted "Failed to delete cart" (api.delete i s).0 ≡ throw e
      → (api.delete i s).1 ≡ s
  delete-unchanged i s e h = api.delete-refused i s (accepted-throw _ e (api.delete i s).0 h)

  delete_all-unchanged :
      (s : S) (e : String)
      → accepted "Failed to delete all carts" (api.delete_all s).0 ≡ throw e
      → (api.delete_all s).1 ≡ s
  delete_all-unchanged s e h = api.delete_all-refused s (accepted-throw _ e (api.delete_all s).0 h)

  shown_cart : Reply Cart → Result String (Option (Value Cart))
  shown_cart r = map_value api cart (found "Cart not found" r)

  Spares-create : (c : Command) (s : S) (q : Asked) → Spares (use_create_cart api c) (query_of q) s
  unfolding use_create_cart use_carts use_cart covers starts_with segment_same shown_cart
  Spares-create c s all = Spares-covered _ _ s (create-unchanged c s) refl
  Spares-create c s (one j) = Spares-same _ _ s (create-unchanged c s) (λ v out h.
      ap shown_cart (api.get_by_id-create j c s (found-is_accepted _ (api.get_by_id j s) v h)))

  Spares-update :
      (i : ℕ) (c : Command) (s : S) (q : Asked) → Spares (use_update_cart api i c) (query_of q) s
  unfolding use_update_cart use_carts use_cart covers starts_with segment_same shown_cart
  Spares-update i c s all = Spares-covered _ _ s (update-unchanged i c s) refl
  Spares-update i c s (one j) =
      Spares-same _ _ s (update-unchanged i c s)
        (λ v out h. ap shown_cart (api.get_by_id-update i j c s (ground arith)))

  Spares-delete :
      (i : ℕ) (s : S) (q : Asked)
      → outdates {Command = Command} (deletes i) q ≡ false
      → Spares (use_delete_cart api i) (query_of q) s
  unfolding use_delete_cart use_carts use_cart covers starts_with segment_same shown_cart
  Spares-delete i s all fine = Spares-covered _ _ s (delete-unchanged i s) refl
  Spares-delete i s (one j) fine =
      Spares-same _ _ s (delete-unchanged i s)
        (λ v out h. ap shown_cart (api.get_by_id-delete i j s fine))

  Spares-delete_all :
      (s : S) (q : Asked)
      → outdates {Command = Command} deletes_all q ≡ false
      → Spares (use_delete_all_carts api) (query_of q) s
  unfolding use_delete_all_carts use_carts use_cart covers starts_with segment_same
  Spares-delete_all s all fine = Spares-covered _ _ s (delete_all-unchanged s) refl
  Spares-delete_all s (one j) fine = cc

  module _ (client : QueryClient (Value Cart)) where
    step-Agrees :
        (e : Event Command) (q : Asked) (p : Panel client.Cache S)
        → outdates e q ≡ false
        → Agrees client (query_of q) p
        → Agrees client (query_of q) (step api client e p)
    unfolding step use_carts use_cart
    step-Agrees opens_carts q p fine h =
        use_query-Agrees client (query_of q) (query_of all) p (query_of-same all q p.server) h
    step-Agrees (opens_cart i) q p fine h =
        use_query-Agrees client (query_of q) (query_of (one i)) p (query_of-same (one i) q p.server)
          h
    step-Agrees (creates c) q p fine h =
        use_mutation-Agrees client (query_of q) _ p (Spares-create c p.server q) h
    step-Agrees (updates i c) q p fine h =
        use_mutation-Agrees client (query_of q) _ p (Spares-update i c p.server q) h
    step-Agrees (deletes i) q p fine h =
        use_mutation-Agrees client (query_of q) _ p (Spares-delete i p.server q fine) h
    step-Agrees deletes_all q p fine h =
        use_mutation-Agrees client (query_of q) _ p (Spares-delete_all p.server q fine) h

    run-Agrees :
        (events : List (Event Command)) (q : Asked) (p : Panel client.Cache S)
        → is_outdated events q ≡ false
        → Agrees client (query_of q) p
        → Agrees client (query_of q) (run api client events p)
    unfolding run is_outdated
    run-Agrees [] q p fine h = h
    run-Agrees (e ∷ events) q p fine h =
        run-Agrees events q (step api client e p) (ground arith)
          (step-Agrees e q p (ground arith) h)

    -- If what is fresh at first is what the server would answer: whatever is asked for, created,
    -- changed and deleted, and refused or not, what is fresh afterwards for the list, or
    -- for a cart that was not deleted meanwhile, is what the server would answer then.
    query_fn-run_carts :
        (events : List (Event Command)) (q : Asked) (p : Panel client.Cache S) (v : Value Cart)
        → is_outdated events q ≡ false
        → Agrees client (query_of q) p
        → client.fresh (run api client events p).cache (query_of q).query_key ≡ some v
        → (query_of q).query_fn (run api client events p).server ≡ ok (some v)
    query_fn-run_carts events q p v fine h fresh = run-Agrees events q p fine h v fresh
