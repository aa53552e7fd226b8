-- ===== src/Queries/Hooks/Agrees.antt =====
-- The hooks over one cache: when what is fresh in it is still what the server would answer.
use pipeline_azure.Prelude.{
  ◌≡◌, refl, ◌∙◌, ap, Bool, true, false, ◌||◌, Option, none, some, String, List, [], ◌∷◌, arith,
  Result, ok, throw, Bool-cases, inl, inr, if◌then◌else◌,
}
use pipeline_azure.Queries.Cache.{Key, key_same, starts_with, QueryClient}
use pipeline_azure.Queries.Hooks.{
  Effect, Query, Mutation, Panel, invalidate_all, answered, use_query, settled, use_mutation,
}

-- Some of the keys stand at the start of the given one.
unfoldable pub covers : List Key → Key → Bool
covers [] j = false
covers (k ∷ keys) j = starts_with j k || covers keys j

module _ {Value : Type 0} (client : QueryClient Value) where
  fresh-invalidate_all :
      (keys : List Key) (j : Key) (c : client.Cache)
      → client.fresh (invalidate_all client keys c) j
        ≡ (if covers keys j then none else client.fresh c j)
  unfolding invalidate_all covers
  fresh-invalidate_all [] j c = refl
  fresh-invalidate_all (k ∷ keys) j c =
      fresh-invalidate_all keys j (client.invalidate_queries k c)
      ∙ ground (arith, client.fresh-invalidate_queries k j c)

-- What the request of a mutation leaves as the query would be answered: all of it, if the request
-- fails; else what the mutation does not invalidate.
pub record Spares {Server Value : Type 0} (m : Mutation Server) (q : Query Server Value)
    (s : Server) : Type 0 where
  pub refused : (e : String) → (m.mutation_fn s).0 ≡ throw e → (m.mutation_fn s).1 ≡ s
  pub kept :
      (a : m.Answer) (v : Value)
      → (m.mutation_fn s).0 ≡ ok a
      → covers m.invalidates q.query_key ≡ false
      → q.query_fn s ≡ ok (some v)
      → q.query_fn (m.mutation_fn s).1 ≡ ok (some v)

module _ {Server Value : Type 0} (m : Mutation Server) (q : Query Server Value) (s : Server)
    (refused : (e : String) → (m.mutation_fn s).0 ≡ throw e → (m.mutation_fn s).1 ≡ s) where
  pub Spares-covered : covers m.invalidates q.query_key ≡ true → Spares m q s
  Spares-covered h = record { refused = refused; kept = λ a v done out answer. cc }

  pub Spares-same :
      ((v : Value)
        → covers m.invalidates q.query_key ≡ false
        → q.query_fn s ≡ ok (some v)
        → q.query_fn (m.mutation_fn s).1 ≡ q.query_fn s)
      → Spares m q s
  Spares-same h = record {
    refused = refused;
    kept = λ a v done out answer. h v out answer ∙ answer;
  }

module _ {Server Value : Type 0} (client : QueryClient Value) where
  -- What is fresh under the key of the query is what its function would get from the server now.
  abbrev pub Agrees : Query Server Value → Panel client.Cache Server → Type 0
  Agrees q p =
      (v : Value) → client.fresh p.cache q.query_key ≡ some v → q.query_fn p.server ≡ ok (some v)

  answered-Agrees :
      (q r : Query Server Value) (p : Panel client.Cache Server)
      → (key_same r.query_key q.query_key ≡ true → r.query_fn p.server ≡ q.query_fn p.server)
      → (o : Result String (Option Value)) → r.query_fn p.server ≡ o
      → Agrees q p
      → Agrees q (answered client r.query_key o p)
  answered-Agrees q r p same (ok (some w)) e h = λ v fresh.
      let put = client.fresh-set_query_data r.query_key q.query_key w p.cache in
      elim (Bool-cases (key_same r.query_key q.query_key)) [
        | inl own ↦ ground (arith, put, own, same own, e, fresh)
        | inr other ↦ h v (ground (arith, put, other, fresh))
      ]
  answered-Agrees q r p same (ok none) e h = h
  answered-Agrees q r p same (throw x) e h = h

  pub use_query-Agrees :
      (q r : Query Server Value) (p : Panel client.Cache Server)
      → (key_same r.query_key q.query_key ≡ true → r.query_fn p.server ≡ q.query_fn p.server)
      → Agrees q p
      → Agrees q (use_query client r p)
  unfolding use_query
  use_query-Agrees q r p same h = elim (Bool-cases r.enabled) [
    | inl on ↦ rw on (answered-Agrees q r p same (r.query_fn p.server) refl h)
    | inr off ↦ rw off h
  ]

  settled-Agrees :
      (q : Query Server Value) (keys : List Key) (success_toast : Option Effect)
      (failed : String → List Effect) {Answer : Type 0} (result : Result String Answer)
      (p : Panel client.Cache Server) (server : Server)
      → ((e : String) → result ≡ throw e → server ≡ p.server)
      → ((a : Answer) (v : Value)
          → result ≡ ok a
          → covers keys q.query_key ≡ false
          → q.query_fn p.server ≡ ok (some v)
          → q.query_fn server ≡ ok (some v))
      → Agrees q p
      → Agrees q (settled client keys success_toast failed result (record p { server = server }))
  settled-Agrees q keys success_toast failed (ok a) p server refused kept h = λ v fresh.
      let after = fresh-invalidate_all client keys q.query_key p.cache in
      elim (Bool-cases (covers keys q.query_key)) [
        | inl stale ↦ ground (arith, after, stale, fresh)
        | inr out ↦ kept a v refl out (h v (ground (arith, after, out, fresh)))
      ]
  settled-Agrees q keys success_toast failed (throw e) p server refused kept h =
      λ v fresh. ap q.query_fn (refused e refl) ∙ h v fresh

  pub use_mutation-Agrees :
      (q : Query Server Value) (m : Mutation Server) (p : Panel client.Cache Server)
      → Spares m q p.server
      → Agrees q p
      → Agrees q (use_mutation client m p)
  unfolding use_mutation
  use_mutation-Agrees q m p spares h =
      let (result, server) = m.mutation_fn p.server in
      settled-Agrees q m.invalidates m.on_success m.on_error result p server
        (λ e t. spares.refused e t) (λ a v t out answer. spares.kept a v t out answer) h
