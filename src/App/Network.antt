-- ===== src/App/Network.antt =====
-- src/Presentation/App/src/presentation/shared/hooks/useNetworkStatus.ts
-- The hook beside the `SyncManager` that it watches. NetInfo and React's scheduling are not in the
-- repository: when they act is the sequence of events. A call of `syncPendingOperations` is one
-- event; the changes that are made meanwhile are part of its environment.
pub mod Starved
pub mod Drained
mod Tests
use pipeline_azure.Prelude.{
  ℕ, ◌+◌, ◌-◌, Bool, true, false, ◌&&◌, Option, none, some, List, [], ◌∷◌, nat_eq, ◌==◌, ltb,
  if◌then◌else◌,
}
use pipeline_azure.Json.{Json}
use pipeline_azure.App.Storage.{Payload}
use pipeline_azure.App.Storage.Queue.{Change, perform}
use pipeline_azure.App.Sync.{
  SyncStatus, Manager, Environment, subscribe, unsubscribe, sync_pending_operations,
  get_sync_status,
}

-- `watched` is the `syncStatus.pendingCount` that the functions of the last effect hold, `listener`
-- the number of the function that it subscribed, and `reads` the calls of `getSyncStatus` that have
-- not come back.
pub record Hook : Type 0 where
  pub is_online : Bool
  pub sync_status : SyncStatus
  pub watched : ℕ
  pub listener : ℕ
  pub reads : ℕ

pub record App (Number Text : Type 0) : Type 0 where
  pub hook : Hook
  pub manager : Manager Number Text

-- `net_info` and `fetched` carry `state.isConnected`, a Boolean or `null`.
pub data Event (Number : Type 0) : Type 0 where
  net_info fetched : Option Bool → Event Number
  rendered status_read manual_sync : Event Number
  changed : Change Number → Event Number

-- `state.isConnected === true`
abbrev pub is_connected : Option Bool → Bool
is_connected none = false
is_connected (some b) = b

-- `setSyncStatus` for each status that a listener is told: the last one stays.
unfoldable pub set_sync_status : ℕ → List (ℕ × SyncStatus) → SyncStatus → SyncStatus
set_sync_status l [] s = s
set_sync_status l ((k, t) ∷ told) s = set_sync_status l told (if k == l then t else s)

-- The state before the first render.
abbrev pub unmounted : Hook
unmounted = record {
  is_online = true;
  sync_status = record { is_online = true; is_syncing = false; pending_count = 0 };
  watched = 0;
  listener = 0;
  reads = 0;
}

module _ {Number Text : Type 0} where
  -- The effect: it subscribes a new function and asks for the status.
  unfoldable pub run_effect : App Number Text → App Number Text
  unfolding subscribe
  run_effect a =
      let l = a.hook.listener + 1 in
      record {
        hook = record a.hook {
          watched = a.hook.sync_status.pending_count;
          listener = l;
          reads = a.hook.reads + 1;
        };
        manager = subscribe a.manager l;
      }

  abbrev pub mount : Manager Number Text → App Number Text
  mount m = run_effect (record { hook = unmounted; manager = m })

  -- `unsubscribeSync()`, when the effect runs again and when the component goes.
  unfoldable pub clean_up : App Number Text → App Number Text
  unfolding unsubscribe
  clean_up a = record a { manager = unsubscribe a.manager a.hook.listener }

  -- The effect runs again after a render that changed `syncStatus.pendingCount`.
  unfoldable pub after_render : App Number Text → App Number Text
  unfolding run_effect clean_up
  after_render a =
      if a.hook.sync_status.pending_count == a.hook.watched then a else run_effect (clean_up a)

  module _ (json : Json Text (Payload Number)) (env : Environment Number Text) where
    -- `syncManager.syncPendingOperations()`, and what it tells this hook.
    unfoldable pub sync : App Number Text → App Number Text
    sync a =
        let m = sync_pending_operations json env (record a.manager { delivered = [] }) in
        record {
          hook = record a.hook {
            sync_status = set_sync_status a.hook.listener m.1.delivered a.hook.sync_status;
          };
          manager = m.1;
        }

    -- The listener of NetInfo.
    unfoldable pub on_net_info : Bool → App Number Text → App Number Text
    unfolding sync
    on_net_info connected a =
        let a' = record a { hook = record a.hook { is_online = connected } } in
        if connected && ltb 0 a.hook.watched then sync a' else a'

    -- `getSyncStatus().then(setSyncStatus)`
    unfoldable pub on_status_read : App Number Text → App Number Text
    on_status_read a =
        let (status, m) = get_sync_status json env a.manager in
        if a.hook.reads == 0 then a else record {
          hook = record a.hook { sync_status = status; reads = a.hook.reads - 1 };
          manager = m;
        }

    unfoldable pub step : Event Number → App Number Text → App Number Text
    unfolding on_net_info on_status_read after_render sync
    step (net_info state) a = on_net_info (is_connected state) a
    step (fetched state) a = record a { hook = record a.hook { is_online = is_connected state } }
    step rendered a = after_render a
    step status_read a = on_status_read a
    step manual_sync a = sync a
    step (changed c) a = record a {
      manager = record a.manager { session = (perform json env.world c a.manager.session).1 };
    }

    unfoldable pub run : List (Event Number) → App Number Text → App Number Text
    unfolding step
    run [] a = a
    run (e ∷ events) a = run events (step e a)
