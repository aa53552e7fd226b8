-- ===== src/Queries/Tests.antt =====
-- The query clients, on a server that is down and on one that then denies the user.
use pipeline_azure.Prelude.{ℕ, ◌≡◌, refl, true, false, some, none, ◌==◌, nat_eq, if◌then◌else◌}
use pipeline_azure.Queries.{QueryError, axios, admin_retry, retry_delay, retries}

abbrev down : ℕ → QueryError
down k = axios (some 503)

abbrev then_denied : ℕ → QueryError
then_denied k = if k == 2 then axios (some 403) else axios none

retry_delay_test : (retry_delay 0 ≡ 1000) × (retry_delay 4 ≡ 16000) × (retry_delay 5 ≡ 30000)
unfolding retry_delay
retry_delay_test = (refl, refl, refl)

denied_test :
    (retries (admin_retry true) then_denied 2 ≡ true)
    × (retries (admin_retry true) then_denied 3 ≡ false)
unfolding admin_retry
denied_test = (refl, refl)
