-- ===== src/Admin/CachedValues.antt =====
-- src/Presentation/Admin/src/hooks/useCache.ts, over src/Presentation/Admin/src/lib/api/cache.ts
-- The values of the server's own cache, by their keys. Values do not run out meanwhile.
pub mod Agrees
mod Tests
use pipeline_azure.Prelude.{
  ◌≡◌, Bool, true, false, not, ◌&&◌, Option, none, some, String, List, [], ◌∷◌, Result, ok, throw,
  string_eq, ◌==◌,
}
use pipeline_azure.Queries.Cache.{Key, text, QueryClient}
use pipeline_azure.Queries.Hooks.{
  success, error_toast, Query, Mutation, Panel, use_query, use_mutation,
}
use pipeline_azure.Admin.Api.{Reply, is_accepted, accepted}

pub record RedisCacheRequest : Type 0 where
  pub key : String
  pub value : String

-- `cacheApi` over the states of a server. A request that is refused changes nothing, and one that is
-- accepted changes what is read under its own key alone.
pub record CacheApi (S : Type 0) : Type 0 where
  pub get : String → S → Reply String
  pub set : RedisCacheRequest → S → Reply Bool × S
  pub delete : String → S → Reply Bool × S
  pub set-refused :
      (r : RedisCacheRequest) (s : S) → is_accepted (set r s).0 ≡ false → (set r s).1 ≡ s
  pub delete-refused :
      (k : String) (s : S) → is_accepted (delete k s).0 ≡ false → (delete k s).1 ≡ s
  pub get-set :
      (j : String) (r : RedisCacheRequest) (s : S)
      → (r.key == j) ≡ false
      → get j (set r s).1 ≡ get j s
  pub get-delete : (j k : String) (s : S) → (k == j) ≡ false → get j (delete k s).1 ≡ get j s

abbrev pub detail_key : String → Key
detail_key key = text "cache" ∷ text key ∷ []

pub data Event : Type 0 where
  opens : (key : String) → (enabled : Bool) → Event
  sets : RedisCacheRequest → Event
  deletes : String → Event

module _ {S : Type 0} (api : CacheApi S) where
  unfoldable pub use_cache_value : String → Bool → Query S String
  unfolding accepted
  use_cache_value key enabled = record {
    query_key = detail_key key;
    enabled = enabled && not (key == "");
    query_fn = λ s. accepted "Cache key not found" (api.get key s);
  }

  unfoldable pub use_set_cache : RedisCacheRequest → Mutation S
  unfolding accepted
  use_set_cache request = record {
    Answer = Option Bool;
    mutation_fn = λ s.
        let (reply, after) = api.set request s in (accepted "Failed to set cache" reply, after);
    invalidates = detail_key request.key ∷ [];
    on_success = some (success "Cache value set successfully");
    on_error = error_toast "Failed to set cache";
  }

  unfoldable pub use_delete_cache : String → Mutation S
  unfolding accepted
  use_delete_cache key = record {
    Answer = Option Bool;
    mutation_fn = λ s.
        let (reply, after) = api.delete key s in (accepted "Failed to delete cache" reply, after);
    invalidates = detail_key key ∷ [];
    on_success = some (success "Cache key deleted successfully");
    on_error = error_toast "Failed to delete cache";
  }

  module _ (client : QueryClient String) where
    unfoldable pub step : Event → Panel client.Cache S → Panel client.Cache S
    unfolding use_query use_mutation use_cache_value use_set_cache use_delete_cache
    step (opens key enabled) p = use_query client (use_cache_value key enabled) p
    step (sets r) p = use_mutation client (use_set_cache r) p
    step (deletes key) p = use_mutation client (use_delete_cache key) p

    unfoldable pub run : List (Event) → Panel client.Cache S → Panel client.Cache S
    unfolding step
    run [] p = p
    run (e ∷ events) p = run events (step e p)
