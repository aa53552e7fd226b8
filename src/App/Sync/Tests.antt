-- ===== src/App/Sync/Tests.antt =====
-- SyncManager on a queue of two operations, and its theorems at it.
use pipeline_azure.Prelude.{
  ℕ, ◌+◌, if◌then◌else◌, ◌≡◌, refl, ◌≤◌, true, false, Option, none, some, List, [], ◌∷◌, ◌++◌,
  arith, nat_eq, ◌==◌,
}
use pipeline_azure.Json.{plain_json}
use pipeline_azure.App.Database.{
  update, delete, cart_item, pending, QueueRow, Database, select, execute,
}
use pipeline_azure.App.Storage.{
  Payload, quantity, empty, pending_rows, mark_rows, get_queue, clear_queue, remove_from_queue,
  insert_queue_row, set_row_quantity,
}
use pipeline_azure.App.Storage.Queue.{updates, on_queue, on_cart}
use pipeline_azure.App.Sync.{
  notify_listeners, sync_operations, sync_locked, Manager, Environment, Counts, synced_counts,
  put_cart, delete_cart, sync_one, sync_each, sync_pending_operations,
}
use pipeline_azure.App.Sync.Lock.{is_syncing-sync_pending_operations}
use pipeline_azure.App.Sync.Totals.{requests_for, accepted, rejected, sync_each_lem}
use pipeline_azure.App.Sync.Kept.{KeptBy}
use pipeline_azure.App.Sync.Whole.{sync_pending_operations-KeptBy}

abbrev pub first : QueueRow (Option (Payload ℕ))
first = record {
  id = 1;
  operation_type = update;
  entity_type = cart_item;
  entity_id = 4;
  payload = some (quantity 3);
  status = pending;
  retry_count = 0;
  created_at = 0;
  synced_at = none;
}

abbrev pub second : QueueRow (Option (Payload ℕ))
second = record first { id = 2; operation_type = delete; entity_id = 5; payload = some empty }

abbrev pub stored : Database ℕ (Option (Payload ℕ))
stored = record { products = []; cart_items = []; offline_queue = first ∷ second ∷ []; next_id = 3 }

abbrev pub idle : Manager ℕ (Option (Payload ℕ))
idle = record {
  is_syncing = false;
  listeners = 9 ∷ [];
  delivered = [];
  requests = [];
  events = [];
  session = record { db = some stored; moment = 0 };
}

-- The server accepts the first operation; while it is there, another change is made.
abbrev pub env : Environment ℕ (Option (Payload ℕ))
env = record {
  world = record { fails = λ _. false; stamp = λ n. n };
  order = λ rows. rows;
  accepts = λ id _. id == 1;
  meanwhile = λ id. if id == 1 then updates 4 7 ∷ [] else [];
  at_end = [];
}

whole_call_test : (sync_pending_operations plain_json env idle).0 ≡ record {
  success = false;
  message = synced_counts 1 1;
  counts = some (record { success = 1; failure = 1 });
}
unfolding sync_pending_operations get_queue clear_queue select execute remove_from_queue
    pending_rows mark_rows on_queue on_cart insert_queue_row set_row_quantity sync_one
whole_call_test = refl

requests_test :
    (sync_pending_operations plain_json env idle).1.requests
    ≡ put_cart 4 (quantity 3) ∷ delete_cart 5 ∷ []
unfolding sync_pending_operations get_queue clear_queue select execute remove_from_queue
    pending_rows mark_rows on_queue on_cart insert_queue_row set_row_quantity sync_one
requests_test = refl

is_syncing-sync_pending_operations_example :
    (sync_pending_operations plain_json env idle).1.is_syncing ≡ false
is_syncing-sync_pending_operations_example = is_syncing-sync_pending_operations plain_json env idle

sync_each_lem_example :
    let start : Counts = record { success = 0; failure = 0 } in
    let rows : List (QueueRow (Option (Payload ℕ))) = first ∷ second ∷ [] in
    let (c', m') = sync_each plain_json env rows (start, idle) in
    (m'.requests ≡ [] ++ requests_for plain_json env rows)
    × (c'.success ≡ 0 + accepted plain_json env rows)
    × (0 + rejected plain_json env rows ≤ c'.failure)
sync_each_lem_example =
    sync_each_lem plain_json env (first ∷ second ∷ []) (record { success = 0; failure = 0 }) idle

sync_pending_operations-KeptBy_example :
    (d' : Database ℕ (Option (Payload ℕ))) × ((sync_pending_operations plain_json env
        idle).1.session.db
      ≡ some d')
    × KeptBy plain_json env (pending_rows stored.offline_queue) (updates 4 7 ∷ []) stored d'
unfolding pending_rows
sync_pending_operations-KeptBy_example =
    sync_pending_operations-KeptBy plain_json env (λ n. refl) idle stored refl refl (omega arith)

abbrev pub closed : Manager ℕ (Option (Payload ℕ))
closed = record idle { session = record { db = none; moment = 0 } }

-- Where the database is closed, a call reports success.
closed_example : (sync_pending_operations plain_json env closed).0.success ≡ true
unfolding sync_pending_operations sync_locked sync_operations get_queue select notify_listeners
closed_example = refl
