-- ===== src/Web/Basket/Tests.antt =====
-- The cart of the web shop on a small server, which refuses the number 0.
use pipeline_azure.Prelude.{
  ℕ, ◌≡◌, refl, arith, Bool, true, false, not, ◌&&◌, Option, none, some, String, List, [], ◌∷◌,
  Result, ok, throw, nat_eq, string_eq, ◌==◌, filter_by, if◌then◌else◌,
}
use pipeline_azure.Queries.Cache.{QueryClient, Shown, key_same, starts_with, segment_same, Key}
use pipeline_azure.Queries.Hooks.{
  Panel, success, info, error, navigate, use_query, use_mutation, invalidate_all,
}
use pipeline_azure.Web.Basket.{
  CartItem, CartApi, has_id, Event, opens, adds, updates, removes, get_all, get_by_id, add, update,
  use_cart, add_to_cart, update_cart_item, remove_from_cart, cart_items, step, run, please_login,
}
use pipeline_azure.Web.Basket.Agrees.{cart_items-run}

abbrev Items : Type 0
Items = List (CartItem ℕ)

abbrev item : ℕ → CartItem ℕ
item n = record { id = some n; details = n }

abbrev unless_zero : {A : Type 0} → ℕ → A → Items → Items → Result String A × Items
unless_zero n a s after = if n == 0 then (throw "no", s) else (ok a, after)

unless_zero-throw :
    {A : Type 0} (n : ℕ) (a : A) (s after : Items) (e : String)
    → (unless_zero n a s after).0 ≡ throw e
    → (unless_zero n a s after).1 ≡ s
unless_zero-throw n a s after e h = ground arith

unless_zero-none :
    (n : ℕ) (i : Option ℕ) (s after : Items)
    → (unless_zero n (some i) s after).0 ≡ ok none
    → (unless_zero n (some i) s after).1 ≡ s
unless_zero-none n i s after h = ground arith

done-throw : (s : Items) (e : String) → (unless_zero 1 tt s []).0 ≡ throw e → [] ≡ s
done-throw s e h = cc

abbrev api : CartApi Items ℕ
api = record {
  get_all = λ s. ok (some s);
  post = λ d s. unless_zero d (some (some d)) s (item d ∷ s);
  put = λ i s. unless_zero i.details tt s (i ∷ s);
  delete = λ id s. unless_zero id tt s (filter_by (λ i. not (has_id id i.id)) s);
  delete_all = λ s. (ok tt, []);
  post-throw = λ d s. unless_zero-throw d (some (some d)) s (item d ∷ s);
  post-none = λ d s. unless_zero-none d (some d) s (item d ∷ s);
  put-throw = λ i s. unless_zero-throw i.details tt s (i ∷ s);
  delete-throw = λ id s. unless_zero-throw id tt s (filter_by (λ i. not (has_id id i.id)) s);
  delete_all-throw = done-throw;
}

abbrev if_valid : Option Items × Bool → Option Items
if_valid (none, valid) = none
if_valid (some v, valid) = if valid then some v else none

if_valid-some : (e : Option Items × Bool) (v : Items) → if_valid e ≡ some v → e.0 ≡ some v
if_valid-some (none, valid) v h = cc
if_valid-some (some w, valid) v h = ground (arith, h)

if_valid-set :
    (b : Bool) (v : Items) (e : Option Items × Bool)
    → if_valid (if b then (some v, true) else e) ≡ (if b then some v else if_valid e)
if_valid-set true v e = refl
if_valid-set false v e = refl

if_valid-invalidate :
    (b : Bool) (e : Option Items × Bool)
    → if_valid (e.0, not b && e.1) ≡ (if b then none else if_valid e)
if_valid-invalidate true (none, valid) = refl
if_valid-invalidate true (some v, valid) = refl
if_valid-invalidate false e = refl

-- A client that keeps what was invalidated, with a mark.
abbrev keeping : QueryClient Items
keeping = record {
  Cache = Key → Option Items × Bool;
  fresh = λ c k. if_valid (c k);
  set_query_data = λ k v c j. if key_same k j then (some v, true) else c j;
  invalidate_queries = λ k c j. ((c j).0, not (starts_with j k) && (c j).1);
  fresh-set_query_data = λ k j v c. if_valid-set (key_same k j) v (c j);
  fresh-invalidate_queries = λ k j c. if_valid-invalidate (starts_with j k) (c j);
}

abbrev shown : Shown keeping
shown = record {
  query_data = λ c k. (c k).0;
  query_data-fresh = λ c k v h. if_valid-some (c k) v h;
  query_data-invalidate_queries = λ k j c. refl;
}

abbrev empty : Panel (Key → Option Items × Bool) Items
empty = record { cache = λ k. (none, false); server = item 2 ∷ []; effects = [] }

abbrev visit : List (Event ℕ)
visit = opens ∷ adds true 5 ∷ opens ∷ adds false 7 ∷ adds true 0 ∷ updates (item 0) ∷ removes 0 ∷ []

cart_items-run_example :
    get_all api (run api keeping visit empty).server
    ≡ ok (cart_items api keeping shown (run api keeping visit empty))
unfolding run step use_query use_mutation use_cart add_to_cart update_cart_item remove_from_cart add
    update get_all invalidate_all key_same starts_with segment_same
cart_items-run_example =
    cart_items-run api keeping shown visit empty (item 5 ∷ item 2 ∷ []) (λ v h. cc) refl

-- Somebody who is not logged in is sent to the login.
effects_example :
    (run api keeping visit empty).effects
    ≡ success "Product added to cart"
      ∷ info please_login
      ∷ navigate "/login"
      ∷ error "Failed to add product to cart"
      ∷ error "Failed to update cart item"
      ∷ error "Failed to remove product from cart"
      ∷ []
unfolding run step use_query use_mutation use_cart add_to_cart update_cart_item remove_from_cart add
    update get_all
effects_example = refl

-- After a change the cart of before stays on screen until the next answer.
stale_example :
    cart_items api keeping shown (run api keeping (opens ∷ adds true 5 ∷ []) empty) ≡ item 2 ∷ []
unfolding run step use_query use_mutation use_cart add_to_cart add get_all invalidate_all key_same
    starts_with segment_same cart_items
stale_example = refl

get_by_id_example :
    (get_by_id api (λ id. "absent") 2 (item 2 ∷ []) ≡ ok (item 2))
    × (get_by_id api (λ id. "absent") 3 (item 2 ∷ []) ≡ throw "absent")
unfolding get_by_id get_all
get_by_id_example = (refl, refl)
