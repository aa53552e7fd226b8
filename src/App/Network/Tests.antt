-- ===== src/App/Network/Tests.antt =====
-- useNetworkStatus beside a queue of two operations, and beside an empty one.
use pipeline_azure.Prelude.{
  remove, ℕ, ◌≡◌, refl, true, false, Option, none, some, List, [], ◌∷◌, arith, nat_eq, length,
}
use pipeline_azure.Json.{plain_json}
use pipeline_azure.App.Database.{Database, QueueRow, update, cart_item, pending, select, execute}
use pipeline_azure.App.Storage.{
  Payload, quantity, pending_rows, get_queue, clear_queue, mark_rows, remove_from_queue,
}
use pipeline_azure.App.Storage.Queue.{updates}
use pipeline_azure.App.Sync.{
  sync_operation, Manager, Environment, get_sync_status, sync_pending_operations, sync_one,
  notify_listeners, conclude,
}
use pipeline_azure.App.Sync.Rows.{Fresh}
use pipeline_azure.App.Network.{
  App, Event, net_info, rendered, status_read, changed, mount, run, run_effect, step,
  set_sync_status,
}
use pipeline_azure.App.Network.Starved.{requests-run}
use pipeline_azure.App.Network.Drained.{pending_rows-net_info}

abbrev row : QueueRow (Option (Payload ℕ))
row = record {
  id = 1;
  operation_type = update;
  entity_type = cart_item;
  entity_id = 4;
  payload = some (quantity 3);
  status = pending;
  retry_count = 0;
  created_at = 0;
  synced_at = none;
}

abbrev bare : Database ℕ (Option (Payload ℕ))
bare = record { products = []; cart_items = []; offline_queue = []; next_id = 1 }

abbrev stored : Database ℕ (Option (Payload ℕ))
stored = record bare { offline_queue = row ∷ record row { id = 2 } ∷ []; next_id = 3 }

abbrev idle : Database ℕ (Option (Payload ℕ)) → Manager ℕ (Option (Payload ℕ))
idle d = record {
  is_syncing = false;
  listeners = [];
  delivered = [];
  requests = [];
  events = [];
  session = record { db = some d; moment = 0 };
}

abbrev env : Environment ℕ (Option (Payload ℕ))
env = record {
  world = record { fails = λ _. false; stamp = λ n. n };
  order = λ rows. rows;
  accepts = λ _ _. true;
  meanwhile = λ _. [];
  at_end = [];
}

-- The hook, mounted beside the two operations, when it has read the status and run its effect again.
abbrev watching : App ℕ (Option (Payload ℕ))
watching = run plain_json env (status_read ∷ rendered ∷ []) (mount (idle stored))

watched_test : watching.hook.watched ≡ 2
unfolding run get_sync_status get_queue select pending_rows run_effect
watched_test = refl

drained_test :
    (run plain_json env (net_info (some true) ∷ []) watching).hook.sync_status
    ≡ record { is_online = true; is_syncing = false; pending_count = 0 }
unfolding run get_sync_status get_queue select pending_rows run_effect sync_pending_operations
    notify_listeners clear_queue execute mark_rows remove_from_queue sync_one set_sync_status
    conclude remove
drained_test = refl

abbrev outage : List (Event ℕ)
outage = net_info (some false) ∷ changed (updates 4 7) ∷ net_info (some true) ∷ rendered ∷ []

requests-run_example :
    let a = run plain_json env (status_read ∷ outage) (mount (idle bare)) in
    (a.manager.requests ≡ [])
    × (d' : Database ℕ (Option (Payload ℕ))) × (a.manager.session.db ≡ some d')
    × (length (pending_rows d'.offline_queue) ≡ 1)
unfolding pending_rows
requests-run_example =
    requests-run plain_json env (λ n. refl) outage (idle bare) bare
      (refl, (refl, (refl, (refl, tt)))) refl refl refl

abbrev online : App ℕ (Option (Payload ℕ))
online = record {
  hook = record {
    is_online = false;
    sync_status = record { is_online = true; is_syncing = false; pending_count = 2 };
    watched = 2;
    listener = 2;
    reads = 1;
  };
  manager = idle stored;
}

pending_rows-net_info_example :
    (d' : Database ℕ (Option (Payload ℕ))) × ((step plain_json env
        (net_info (some true))
        online).manager.session.db
      ≡ some d')
    × Fresh 3 (pending_rows d'.offline_queue)
unfolding pending_rows sync_operation
pending_rows-net_info_example =
    pending_rows-net_info plain_json env (λ n. refl) online stored (omega arith) refl refl
      (omega arith) (refl, (refl, tt)) (refl, (refl, tt))
