-- ===== src/Queries/Cache.antt =====
-- The cache of `@tanstack/react-query`, which is not in the repository, as an interface: `fresh` is
-- the data of a query that has been answered and not been invalidated since. What the documentation
-- says of `invalidateQueries` is that it takes in every query whose key starts with the given one.
use pipeline_azure.Prelude.{
  ℕ, ◌≡◌, ◌↔◌, refl, Bool, true, false, ◌&&◌, Option, none, some, String, List, [], ◌∷◌, arith,
  eq_iff, Eq, nat_eq, string_eq, ◌==◌, if◌then◌else◌,
}

-- A part of a key: a text, a number, or the object `{ pageNumber, pageSize }`.
pub data Segment : Type 0 where
  text : String → Segment
  number : ℕ → Segment
  page : ℕ → ℕ → Segment

unfoldable pub segment_same : Segment → Segment → Bool
segment_same (text s) (text t) = s == t
segment_same (number m) (number n) = m == n
segment_same (page m n) (page k l) = m == k && n == l
segment_same _ _ = false

pub segment_same_iff : (a b : Segment) → (segment_same a b ≡ true) ↔ (a ≡ b)
unfolding segment_same
segment_same_iff (text s) (text t) = ground (arith, eq_iff s t)
segment_same_iff (text s) (number n) = ground arith
segment_same_iff (text s) (page k l) = ground arith
segment_same_iff (number m) (text t) = ground arith
segment_same_iff (number m) (number n) = ground arith
segment_same_iff (number m) (page k l) = ground arith
segment_same_iff (page m n) (text t) = ground arith
segment_same_iff (page m n) (number k) = ground arith
segment_same_iff (page m n) (page k l) = ground arith

instance abbrev pub segment_eq : Eq Segment
segment_eq = record { same = segment_same; same_iff = segment_same_iff }

abbrev pub Key : Type 0
Key = List Segment

unfoldable pub key_same : Key → Key → Bool
unfolding segment_same
key_same [] [] = true
key_same [] (b ∷ k) = false
key_same (a ∷ j) [] = false
key_same (a ∷ j) (b ∷ k) = a == b && key_same j k

-- Whether the first key starts with the second.
unfoldable pub starts_with : Key → Key → Bool
unfolding segment_same
starts_with j [] = true
starts_with [] (b ∷ k) = false
starts_with (a ∷ j) (b ∷ k) = a == b && starts_with j k

pub record QueryClient (Value : Type 0) : Type 1 where
  pub Cache : Type 0
  pub fresh : Cache → Key → Option Value
  pub set_query_data : Key → Value → Cache → Cache
  pub invalidate_queries : Key → Cache → Cache
  pub fresh-set_query_data :
      (k j : Key) (v : Value) (c : Cache)
      → fresh (set_query_data k v c) j ≡ (if key_same k j then some v else fresh c j)
  pub fresh-invalidate_queries :
      (k j : Key) (c : Cache)
      → fresh (invalidate_queries k c) j ≡ (if starts_with j k then none else fresh c j)

-- What a component sees of the data: also what was invalidated, until the next answer.
pub record Shown {Value : Type 0} (client : QueryClient Value) : Type 0 where
  pub query_data : client.Cache → Key → Option Value
  pub query_data-fresh :
      (c : client.Cache) (k : Key) (v : Value) → client.fresh c k ≡ some v → query_data c k ≡ some v
  pub query_data-invalidate_queries :
      (k j : Key) (c : client.Cache) → query_data (client.invalidate_queries k c) j ≡ query_data c j

-- A client to try the theorems with: the data by key.
abbrev pub plain_client : (Value : Type 0) → QueryClient Value
plain_client Value = record {
  Cache = Key → Option Value;
  fresh = λ c. c;
  set_query_data = λ k v c j. if key_same k j then some v else c j;
  invalidate_queries = λ k c j. if starts_with j k then none else c j;
  fresh-set_query_data = λ k j v c. refl;
  fresh-invalidate_queries = λ k j c. refl;
}
