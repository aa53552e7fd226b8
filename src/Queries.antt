-- ===== src/Queries.antt =====
-- src/Presentation/Web/src/services/queryClient.ts,
-- src/Presentation/App/src/infrastructure/config/queryClient.ts and the query client of
-- src/Presentation/Admin/src/main.tsx, with src/Presentation/Admin/src/lib/handle-server-error.ts:
-- which queries that fail are tried again, how long the client waits, and what a mutation that
-- fails shows. The library that calls these functions is not in the repository: before its retry
-- `k`, counted from 0, it calls `retry(k, error)` with the error of the attempt before, and it
-- waits `retryDelay(k)` milliseconds.
pub mod Bounded
pub mod Cache
pub mod Hooks
mod Tests
use pipeline_azure.Prelude.{
  ℕ, zero, suc, ◌+◌, ◌*◌, ◌^◌, min, Bool, true, false, not, ◌&&◌, ◌||◌, Option, none, some, String,
  List, [], ◌∷◌, nat_eq, ◌==◌, ltb, leb, if◌then◌else◌,
}

-- What a query fails with: an `AxiosError` with the status of its answer, if it has one, or
-- something else.
pub data QueryError : Type 0 where
  axios : Option ℕ → QueryError
  other : QueryError

-- `error?.response?.status`
abbrev pub status : QueryError → Option ℕ
status (axios s) = s
status other = none

-- `status && status >= 400 && status < 500`
abbrev pub is_client_error : Option ℕ → Bool
is_client_error none = false
is_client_error (some s) = not (s == 0) && leb 400 s && ltb s 500

unfoldable pub web_retry : ℕ → QueryError → Bool
web_retry failure_count e = if is_client_error (status e) then false else ltb failure_count 3

-- `retryDelay` of the web shop and of the mobile app.
unfoldable pub retry_delay : ℕ → ℕ
retry_delay attempt_index = min (1000 * 2 ^ attempt_index) 30000

-- `error instanceof AxiosError && [401, 403].includes(error.response?.status ?? 0)`
abbrev pub is_denied : QueryError → Bool
is_denied (axios (some s)) = s == 401 || s == 403
is_denied (axios none) = false
is_denied other = false

unfoldable pub admin_retry : (is_prod : Bool) → ℕ → QueryError → Bool
admin_retry is_prod failure_count e =
    if leb 0 failure_count && not is_prod
    then false
    else if ltb 3 failure_count && is_prod
    then false
    else not (is_denied e)

-- Whether `n` retries are made, when the attempts fail with `errors`.
abbrev pub retries : (ℕ → QueryError → Bool) → (ℕ → QueryError) → ℕ → Bool
retries retry errors zero = true
retries retry errors (suc n) = retries retry errors n && retry n (errors n)

-- How long `n` retries wait together.
abbrev pub waits : ℕ → ℕ
waits zero = 0
waits (suc n) = waits n + retry_delay n

-- `error?.response?.data?.message ?? error?.message ?? …`
abbrev pub or_else : Option String → String → String
or_else none d = d
or_else (some s) d = s

unfoldable mutation_text : (data_message message : Option String) → String
mutation_text (some s) message = s
mutation_text none message = or_else message "An unexpected error occurred"

-- `handleServerError`: `no_content` is whether the error has the status 204, `title` what
-- `error.response?.data.title` is, if the error is an `AxiosError`. What is shown may be nothing.
unfoldable handle_server_error : (no_content : Bool) → Option (Option String) → Option String
handle_server_error no_content (some title) = title
handle_server_error true none = some "Content not found."
handle_server_error false none = some "Something went wrong!"
