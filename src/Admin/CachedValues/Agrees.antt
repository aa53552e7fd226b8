-- ===== src/Admin/CachedValues/Agrees.antt =====
-- useCache.ts: what is fresh in the panel, after any requests, is what the server would answer.
use pipeline_azure.Prelude.{
  ◌≡◌, ap, Bool, true, Option, some, String, List, [], ◌∷◌, arith, Result, ok, string_eq,
}
use pipeline_azure.Queries.Cache.{QueryClient, key_same, starts_with, segment_same}
use pipeline_azure.Queries.Hooks.{Query, Panel}
use pipeline_azure.Queries.Hooks.Agrees.{
  covers, Spares, Spares-same, Agrees, use_query-Agrees, use_mutation-Agrees,
}
use pipeline_azure.Admin.Api.{Reply, accepted, accepted-throw}
use pipeline_azure.Admin.CachedValues.{
  RedisCacheRequest, CacheApi, detail_key, use_cache_value, use_set_cache, use_delete_cache, Event,
  opens, sets, deletes, step, run,
}

module _ {S : Type 0} (api : CacheApi S) where
  abbrev query_of : String → Query S String
  unfolding use_cache_value
  query_of key = use_cache_value api key true

  query_of-same :
      (j k : String) (b : Bool) (s : S)
      → key_same (detail_key j) (detail_key k) ≡ true
      → (use_cache_value api j b).query_fn s ≡ (query_of k).query_fn s
  unfolding use_cache_value key_same segment_same
  query_of-same j k b s h =
      let e : j ≡ k = ground (arith, string_eq.same_iff j k) in λ i. (query_of (e i)).query_fn s

  shown : Reply String → Result String (Option String)
  unfolding accepted
  shown r = accepted "Cache key not found" r

  Spares-set :
      (r : RedisCacheRequest) (s : S) (k : String) → Spares (use_set_cache api r) (query_of k) s
  unfolding use_set_cache use_cache_value covers starts_with segment_same shown
  Spares-set r s k =
      Spares-same _ _ s (λ e h. api.set-refused r s (accepted-throw _ e (api.set r s).0 h))
        (λ v out h. ap shown (
          api.get-set k r s
            (ground (arith, out, string_eq.same_iff k r.key, string_eq.same_iff r.key k))))

  Spares-delete : (j : String) (s : S) (k : String) → Spares (use_delete_cache api j) (query_of k) s
  unfolding use_delete_cache use_cache_value covers starts_with segment_same shown
  Spares-delete j s k =
      Spares-same _ _ s (λ e h. api.delete-refused j s (accepted-throw _ e (api.delete j s).0 h))
        (λ v out h. ap shown (
          api.get-delete k j s
            (ground (arith, out, string_eq.same_iff k j, string_eq.same_iff j k))))

  module _ (client : QueryClient String) where
    step-Agrees :
        (e : Event) (k : String) (p : Panel client.Cache S)
        → Agrees client (query_of k) p
        → Agrees client (query_of k) (step api client e p)
    unfolding step use_cache_value
    step-Agrees (opens j b) k p h =
        use_query-Agrees client (query_of k) (use_cache_value api j b) p
          (query_of-same j k b p.server) h
    step-Agrees (sets r) k p h =
        use_mutation-Agrees client (query_of k) _ p (Spares-set r p.server k) h
    step-Agrees (deletes j) k p h =
        use_mutation-Agrees client (query_of k) _ p (Spares-delete j p.server k) h

    run-Agrees :
        (events : List (Event)) (k : String) (p : Panel client.Cache S)
        → Agrees client (query_of k) p
        → Agrees client (query_of k) (run api client events p)
    unfolding run
    run-Agrees [] k p h = h
    run-Agrees (e ∷ events) k p h = run-Agrees events k (step api client e p) (step-Agrees e k p h)

    -- If what is fresh under a key at first is the value that the server has for it, and if no value of
    -- the server's cache runs out and nothing but this panel writes there meanwhile: whatever keys are
    -- read, set and deleted in the panel, and refused or not, what is fresh under the key afterwards is
    -- the value that the server accepts to tell then.
    pub fresh-run :
        (events : List (Event)) (key : String) (p : Panel client.Cache S) (v : String)
        → Agrees client (use_cache_value api key true) p
        → client.fresh (run api client events p).cache (detail_key key) ≡ some v
        → accepted "Cache key not found" (api.get key (run api client events p).server)
          ≡ ok (some v)
    unfolding use_cache_value
    fresh-run events key p v h fresh = run-Agrees events key p h v fresh
