-- ===== src/Queries/Bounded.antt =====
-- The query clients: how often a query is tried again.
use pipeline_azure.Prelude.{ℕ, zero, suc, ◌≤◌, ◌<◌, ◌≡◌, refl, Bool, true, false, arith}
use pipeline_azure.Queries.{QueryError, is_denied, admin_retry, retries}

-- Each retry that is made was asked for.
retries-asked :
    (retry : ℕ → QueryError → Bool) (errors : ℕ → QueryError) (n k : ℕ)
    → retries retry errors n ≡ true
    → k < n
    → retry k (errors k) ≡ true
retries-asked retry errors zero k h below = absurd (omega arith)
retries-asked retry errors (suc n) k h below = ground (arith, retries-asked retry errors n k)

-- At most as many as the count at which it is not asked for any more.
retries-le :
    (retry : ℕ → QueryError → Bool) (errors : ℕ → QueryError) (n most : ℕ)
    → retries retry errors n ≡ true
    → ((e : QueryError) → retry most e ≡ false)
    → n ≤ most
retries-le retry errors n most h stops =
    ground (arith, retries-asked retry errors n most h, stops (errors most))

admin_retry-stops : (e : QueryError) → admin_retry true 4 e ≡ false
unfolding admin_retry
admin_retry-stops e = ground arith

-- A query of the admin panel is tried again in production alone, at most four times, and never
-- after an attempt that failed with the status 401 or 403.
admin_retry-Bounded :
    (is_prod : Bool) (errors : ℕ → QueryError) (n k : ℕ)
    → retries (admin_retry is_prod) errors n ≡ true
    → k < n
    → (is_prod ≡ true) × (n ≤ 4) × (is_denied (errors k) ≡ false)
unfolding admin_retry
admin_retry-Bounded true errors n k h below = (
  refl,
  retries-le (admin_retry true) errors n 4 h admin_retry-stops,
  ground (arith, retries-asked (admin_retry true) errors n k h below),
)
admin_retry-Bounded false errors n k h below =
    absurd (ground (arith, retries-asked (admin_retry false) errors n k h below))
