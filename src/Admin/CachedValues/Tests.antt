-- ===== src/Admin/CachedValues/Tests.antt =====
-- useCache.ts on a small server, which refuses the empty value.
use pipeline_azure.Prelude.{
  ◌≡◌, refl, Bool, true, false, Option, none, some, String, List, [], ◌∷◌, arith, ok, string_eq,
  ◌==◌, if◌then◌else◌, Bool-cases, inl, inr,
}
use pipeline_azure.Queries.Cache.{plain_client, key_same, starts_with, segment_same, Key}
use pipeline_azure.Queries.Hooks.{Panel, success, error, use_query, use_mutation, invalidate_all}
use pipeline_azure.Admin.Api.{Reply, is_accepted, accepted}
use pipeline_azure.Admin.CachedValues.{
  RedisCacheRequest, CacheApi, Event, opens, sets, deletes, use_cache_value, use_set_cache,
  use_delete_cache, step, run, detail_key,
}
use pipeline_azure.Admin.CachedValues.Agrees.{fresh-run}

abbrev Values : Type 0
Values = String → Option String

abbrev accept : {A : Type 0} → A → Reply A
accept a = ok (record { is_success = true; value = some a; message = none })

abbrev refuse : {A : Type 0} → Reply A
refuse = ok (record { is_success = false; value = none; message = some "no" })

abbrev reply : Option String → Reply String
reply none = refuse
reply (some v) = accept v

abbrev put : String → Option String → Values → Values
put k o s j = if k == j then o else s j

abbrev set : RedisCacheRequest → Values → Reply Bool × Values
set r s = if r.value == "" then (refuse, s) else (accept true, put r.key (some r.value) s)

set_refused :
    (r : RedisCacheRequest) (s : Values) → is_accepted (set r s).0 ≡ false → (set r s).1 ≡ s
set_refused r s h = elim (Bool-cases (r.value == "")) [
  | inl empty ↦ rw empty refl
  | inr full ↦ absurd (ground (arith, h, full))
]

get_set :
    (j : String) (r : RedisCacheRequest) (s : Values)
    → (r.key == j) ≡ false
    → reply ((set r s).1 j) ≡ reply (s j)
get_set j r s h = elim (Bool-cases (r.value == "")) [
  | inl empty ↦ rw empty refl
  | inr full ↦ rw (full, h) refl
]

delete_refused : (k : String) (s : Values) → is_accepted (accept true) ≡ false → put k none s ≡ s
delete_refused k s h = cc

get_delete : (j k : String) (s : Values) → (k == j) ≡ false → reply (put k none s j) ≡ reply (s j)
get_delete j k s h = rw h refl

abbrev api : CacheApi Values
api = record {
  get = λ k s. reply (s k);
  set = set;
  delete = λ k s. (accept true, put k none s);
  set-refused = set_refused;
  delete-refused = delete_refused;
  get-set = get_set;
  get-delete = get_delete;
}

abbrev empty : Panel (Key → Option String) Values
empty = record { cache = λ k. none; server = λ k. some "old"; effects = [] }

abbrev requests : List Event
requests =
    opens "a" true
    ∷ opens "b" true
    ∷ sets (record { key = "a"; value = "new" })
    ∷ sets (record { key = "b"; value = "" })
    ∷ deletes "c"
    ∷ opens "a" true
    ∷ []

fresh-run_example :
    accepted "Cache key not found" (api.get "a" (run api (plain_client _) requests empty).server)
    ≡ ok (some "new")
unfolding run step use_query use_mutation use_cache_value use_set_cache use_delete_cache accepted
    invalidate_all key_same starts_with segment_same
fresh-run_example = fresh-run api (plain_client _) requests "a" empty "new" (λ v h. cc) refl

-- What a refused request leaves fresh is still what the server has.
refused_example :
    ((run api (plain_client _) requests empty).cache (detail_key "b") ≡ some "old")
    × ((run api (plain_client _) requests empty).effects
        ≡ success "Cache value set successfully"
          ∷ error "no"
          ∷ success "Cache key deleted successfully"
          ∷ [])
unfolding run step use_query use_mutation use_cache_value use_set_cache use_delete_cache accepted
    invalidate_all key_same starts_with segment_same
refused_example = (refl, refl)
