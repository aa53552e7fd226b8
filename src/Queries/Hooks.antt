-- ===== src/Queries/Hooks.antt =====
-- What the hooks of the panel and of the shop hand to `useQuery` and `useMutation`, and what those
-- do with it by their documentation. Requests do not overlap, and a query is not tried again. The
-- server is a parameter, and its state a type of its own.
pub mod Agrees
use pipeline_azure.Prelude.{
  or_default, Bool, true, false, Option, none, some, String, List, [], ◌∷◌, ◌++◌, Result, ok, throw,
  if◌then◌else◌,
}
use pipeline_azure.Queries.Cache.{Key, QueryClient}

-- What the user sees of it: a text that is shown as a success, as information or as an error, or
-- another page.
pub data Effect : Type 0 where
  success info error navigate : String → Effect

-- `queryKey`, `enabled`, and `queryFn`, which throws, or returns a value or `undefined`.
pub record Query (Server Value : Type 0) : Type 0 where
  pub query_key : Key
  pub enabled : Bool
  pub query_fn : Server → Result String (Option Value)

-- `mutationFn`, with the server after it, and what `onSuccess` and `onError` do: the keys that are
-- invalidated, and what is shown.
pub record Mutation (Server : Type 0) : Type 1 where
  pub Answer : Type 0
  pub mutation_fn : Server → Result String Answer × Server
  pub invalidates : List Key
  pub on_success : Option Effect
  pub on_error : String → List Effect

pub record Panel (Cache Server : Type 0) : Type 0 where
  pub cache : Cache
  pub server : Server
  pub effects : List Effect

-- `toast.error(error.message || fallback)`
abbrev pub error_toast : String → String → List Effect
error_toast fallback message = error (or_default (some message) fallback) ∷ []

abbrev pub effect_of : Option Effect → List Effect
effect_of none = []
effect_of (some t) = t ∷ []

module _ {Value : Type 0} (client : QueryClient Value) where
  unfoldable pub invalidate_all : List Key → client.Cache → client.Cache
  invalidate_all [] c = c
  invalidate_all (k ∷ keys) c = invalidate_all keys (client.invalidate_queries k c)

module _ {Server Value : Type 0} (client : QueryClient Value) where
  -- The value is kept, unless it is `undefined`.
  abbrev pub answered :
      Key → Result String (Option Value) → Panel client.Cache Server → Panel client.Cache Server
  answered k (ok (some v)) p = record p { cache = client.set_query_data k v p.cache }
  answered k (ok none) p = p
  answered k (throw e) p = p

  unfoldable pub use_query :
      Query Server Value → Panel client.Cache Server → Panel client.Cache Server
  use_query q p = if q.enabled then answered q.query_key (q.query_fn p.server) p else p

  abbrev pub settled :
      {Answer : Type 0}
      → List Key
      → Option Effect
      → (String → List Effect)
      → Result String Answer
      → Panel client.Cache Server
      → Panel client.Cache Server
  settled keys success_toast failed (ok a) p = record p {
    cache = invalidate_all client keys p.cache;
    effects = p.effects ++ effect_of success_toast;
  }
  settled keys success_toast failed (throw e) p = record p { effects = p.effects ++ failed e }

  unfoldable pub use_mutation :
      Mutation Server → Panel client.Cache Server → Panel client.Cache Server
  unfolding invalidate_all
  use_mutation m p =
      let (result, server) = m.mutation_fn p.server in
      settled m.invalidates m.on_success m.on_error result (record p { server = server })
