-- ===== src/App/Sync/Totals.antt =====
-- SyncManager: what is sent in one call, and what is counted.
use mathlib.Core.List.{append_assoc, append-nil}
use pipeline_azure.Prelude.{ap, ◌∙◌, ℕ, ◌+◌, ◌≤◌, ◌≡◌, List, [], ◌∷◌, ◌++◌, arith, if◌then◌else◌}
use pipeline_azure.Json.{Json}
use pipeline_azure.App.Database.{QueueRow}
use pipeline_azure.App.Storage.{Payload}
use pipeline_azure.App.Sync.{sync_each, Manager, Environment, Counts, Request, sync_one}
use pipeline_azure.App.Sync.Accepted.{
  asked_by, is_accepted, optional-request, sync_operation-is_accepted,
}

module _ {Number Text : Type 0} (json : Json Text (Payload Number))
    (env : Environment Number Text) where
  -- The requests for a list of operations, in its order.
  unfoldable pub requests_for : List (QueueRow Text) → List (Request Number)
  requests_for [] = []
  requests_for (r ∷ rows) = asked_by json env r ++ requests_for rows

  unfoldable pub accepted : List (QueueRow Text) → ℕ
  accepted [] = 0
  accepted (r ∷ rows) = (if is_accepted json env r then 1 else 0) + accepted rows

  unfoldable pub rejected : List (QueueRow Text) → ℕ
  rejected [] = 0
  rejected (r ∷ rows) = (if is_accepted json env r then 0 else 1) + rejected rows

  sync_one-requests :
      (r : QueueRow Text) (c : Counts) (m : Manager Number Text)
      → (sync_one json env r (c, m)).1.requests ≡ m.requests ++ asked_by json env r
  unfolding sync_one
  sync_one-requests r c m = ground (arith, optional-request json env r)

  sync_one-success :
      (r : QueueRow Text) (c : Counts) (m : Manager Number Text)
      → (sync_one json env r (c, m)).0.success
        ≡ c.success + (if is_accepted json env r then 1 else 0)
  unfolding sync_one
  sync_one-success r c m = ground (arith, sync_operation-is_accepted json env r)

  sync_one-failure :
      (r : QueueRow Text) (c : Counts) (m : Manager Number Text)
      → c.failure + (if is_accepted json env r then 0 else 1)
        ≤ (sync_one json env r (c, m)).0.failure
  unfolding sync_one
  sync_one-failure r c m = ground (arith, sync_operation-is_accepted json env r)

  -- The loop sends the requests of the operations, as the API of the carts has them, in their order and
  -- each once; it counts a success for every operation that has a request which the server accepts, and
  -- at least a failure for every other.
  pub sync_each_lem :
      (rows : List (QueueRow Text)) (c : Counts) (m : Manager Number Text)
      → let (c', m') = sync_each json env rows (c, m) in
        (m'.requests ≡ m.requests ++ requests_for rows)
        × (c'.success ≡ c.success + accepted rows)
        × (c.failure + rejected rows ≤ c'.failure)
  unfolding sync_each requests_for accepted rejected
  sync_each_lem [] c m = (rw append-nil, omega arith, omega arith)
  sync_each_lem (r ∷ rows) c m =
      let (c', m') = sync_one json env r (c, m) in
      let (sent, good, bad) = sync_each_lem rows c' m' in
      (
        sent
            ∙ ap (λ q. q ++ requests_for rows) (sync_one-requests r c m)
            ∙ append_assoc m.requests _ _,
        omega (arith, good, sync_one-success r c m),
        omega (arith, bad, sync_one-failure r c m),
      )
