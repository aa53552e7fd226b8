-- ===== src/App/Sync.antt =====
-- src/Presentation/App/src/infrastructure/services/SyncManager.ts
-- One call of `syncPendingOperations` at a time runs past its first test. At each `await` in its
-- loop other tasks may change the offline cart: the changes are part of the environment, as are
-- the answers of the server. Durations and the wording of messages are left out.
pub mod Accepted
pub mod Lock
pub mod Told
pub mod Totals
pub mod Rows
pub mod Kept
pub mod Whole
pub mod Tests
use pipeline_azure.Prelude.{
  length, ℕ, ◌+◌, ◌≡◌, Bool, true, false, not, Option, none, some, String, List, [], ◌∷◌, ◌++◌, map,
  nat_eq, ◌==◌, remove, Result, ok, throw, if◌then◌else◌,
}
use pipeline_azure.Json.{Json}
use pipeline_azure.App.Database.{
  OperationType, add, update, delete, delete_all, EntityType, cart_item, QueueRow, Database, World,
  Session,
}
use pipeline_azure.App.Storage.{Payload, get_queue, remove_from_queue, clear_queue}
use pipeline_azure.App.Storage.Queue.{Change, on_cart, on_queue}

pub record SyncStatus : Type 0 where
  pub is_online : Bool
  pub is_syncing : Bool
  pub pending_count : ℕ

pub data Message : Type 0 where
  already_in_progress no_pending_operations failed : Message
  synced_counts : (success failure : ℕ) → Message

pub record Counts : Type 0 where
  pub success : ℕ
  pub failure : ℕ

pub record SyncResult : Type 0 where
  pub success : Bool
  pub message : Message
  pub counts : Option Counts

pub data Request (Number : Type 0) : Type 0 where
  post_cart : Payload Number → Request Number
  put_cart : ℕ → Payload Number → Request Number
  delete_cart : ℕ → Request Number
  delete_all_carts : Request Number

-- What is told to the analytics.
pub data Event : Type 0 where
  sync_started sync_failed : Event
  sync_completed : (operations success failure : ℕ) → Event
  offline_operation sync_operation_failed : OperationType → EntityType → Event
  exception : OperationType → ℕ → EntityType → Event

-- `delivered` and `requests` record what went out, oldest first. A listener is a number, one for
-- each function object.
pub record Manager (Number Text : Type 0) : Type 0 where
  pub is_syncing : Bool
  pub listeners : List ℕ
  pub delivered : List (ℕ × SyncStatus)
  pub requests : List (Request Number)
  pub events : List Event
  pub session : Session Number Text

-- `order` is ORDER BY created_at ASC. While the operation with an id is at the server the changes
-- `meanwhile id` are made, and those of `at_end` before the queue is cleared.
pub record Environment (Number Text : Type 0) : Type 0 where
  pub world : World
  pub order : List (QueueRow Text) → List (QueueRow Text)
  pub accepts : ℕ → Request Number → Bool
  pub meanwhile : ℕ → List (Change Number)
  pub at_end : List (Change Number)

-- The `switch` of `syncOperation`.
abbrev pub request_of :
    {Number : Type 0} → OperationType → EntityType → ℕ → Payload Number → Option (Request Number)
request_of add cart_item id p = some (post_cart p)
request_of update cart_item id p = some (put_cart id p)
request_of delete cart_item id p = some (delete_cart id)
request_of delete_all cart_item id p = some delete_all_carts
request_of _ _ id p = none

abbrev pub optional : {A : Type 0} → Option A → List A
optional none = []
optional (some a) = a ∷ []

module _ {Number Text : Type 0} where
  unfoldable pub subscribe : Manager Number Text → ℕ → Manager Number Text
  subscribe m l = record m { listeners = m.listeners ++ l ∷ [] }

  -- The function that `subscribe` returns.
  unfoldable pub unsubscribe : Manager Number Text → ℕ → Manager Number Text
  unsubscribe m l = record m { listeners = remove l m.listeners }

  unfoldable pub notify_listeners : Manager Number Text → SyncStatus → Manager Number Text
  notify_listeners m status = record m {
    delivered = m.delivered ++ map (λ l. (l, status)) m.listeners;
  }

  abbrev pub track : Manager Number Text → Event → Manager Number Text
  track m e = record m { events = m.events ++ e ∷ [] }

  module _ (json : Json Text (Payload Number)) (env : Environment Number Text) where
    unfoldable pub request : QueueRow Text → Option (Request Number)
    request r = elim (json.parse r.payload) [
      | none ↦ none
      | some p ↦ request_of r.operation_type r.entity_type r.entity_id p
    ]

    -- `syncOperation`: a payload that does not parse, an unknown operation and a failed request
    -- are all `false`.
    unfoldable pub sync_operation : QueueRow Text → Bool
    unfolding request
    sync_operation r = elim (request r) [ none ↦ false | some q ↦ env.accepts r.id q ]

    -- Other tasks change the offline cart during an `await`.
    unfoldable pub arrive : List (Change Number) → ℕ → Database Number Text → Database Number Text
    arrive [] now d = d
    arrive (c ∷ changes) now d = arrive changes now (on_queue json c now (on_cart json c now d))

    abbrev on_db :
        (Database Number Text → Database Number Text)
        → Option (Database Number Text)
        → Option (Database Number Text)
    on_db f none = none
    on_db f (some d) = some (f d)

    unfoldable pub await_others : List (Change Number) → Session Number Text → Session Number Text
    unfolding arrive
    await_others changes s = record s {
      db = on_db (arrive changes (env.world.stamp s.moment)) s.db;
    }

    -- One round of the loop over the operations.
    unfoldable pub sync_one :
        QueueRow Text → Counts × Manager Number Text → Counts × Manager Number Text
    unfolding sync_operation await_others
    sync_one r (c, m) =
        let s = await_others (env.meanwhile r.id) m.session in
        let sent = record m { requests = m.requests ++ optional (request r); session = s } in
        if sync_operation r
        then (let (removed, s') = remove_from_queue env.world r.id s in
            elim removed [
              | ok _ ↦ (
                record c { success = c.success + 1 },
                track (record sent { session = s' })
                    (offline_operation r.operation_type r.entity_type),
              )
              | throw _ ↦ (
                record { success = c.success + 1; failure = c.failure + 1 },
                track (record sent { session = s' })
                    (exception r.operation_type r.id r.entity_type),
              )
            ])
        else (
          record c { failure = c.failure + 1 },
          track sent (sync_operation_failed r.operation_type r.entity_type),
        )

    unfoldable pub sync_each :
        List (QueueRow Text) → Counts × Manager Number Text → Counts × Manager Number Text
    sync_each [] cm = cm
    sync_each (r ∷ rows) cm = sync_each rows (sync_one r cm)

    -- The end of a call: the listeners are told, the lock is released, the result is returned.
    abbrev finish :
        Manager Number Text → Event → SyncStatus → SyncResult → SyncResult × Manager Number Text
    finish m e status result =
        (result, record (notify_listeners (track m e) status) { is_syncing = false })

    -- `catch (error)` around the whole.
    abbrev give_up : Manager Number Text → SyncResult × Manager Number Text
    give_up m =
        finish m sync_failed (record { is_online = false; is_syncing = false; pending_count = 0 })
          (record { success = false; message = failed; counts = none })

    -- After the loop: `clearQueue()`, and the result.
    unfoldable pub conclude :
        List (QueueRow Text) → Counts × Manager Number Text → SyncResult × Manager Number Text
    unfolding await_others notify_listeners
    conclude operations (c, m) =
        let (cleared, s) = clear_queue env.world (await_others env.at_end m.session) in
        let m' = record m { session = s } in
        elim cleared [
          | throw _ ↦ give_up m'
          | ok _ ↦
              finish m' (sync_completed (length operations) c.success c.failure)
                (record { is_online = true; is_syncing = false; pending_count = c.failure })
                (record {
                  success = c.failure == 0;
                  message = synced_counts c.success c.failure;
                  counts = some c;
                })
        ]

    sync_operations : List (QueueRow Text) → Manager Number Text → SyncResult × Manager Number Text
    unfolding sync_each conclude
    sync_operations [] m =
        finish m (sync_completed 0 0 0)
          (record { is_online = true; is_syncing = false; pending_count = 0 })
          (record { success = true; message = no_pending_operations; counts = none })
    sync_operations (r ∷ rows) m =
        conclude (r ∷ rows) (sync_each (r ∷ rows) (record { success = 0; failure = 0 }, m))

    -- What runs under the lock.
    unfoldable pub sync_locked : Manager Number Text → SyncResult × Manager Number Text
    unfolding sync_operations
    sync_locked m =
        let (queue, s) = get_queue env.world env.order m.session in
        let m' = record m { session = s } in
        elim queue [ throw _ ↦ give_up m' | ok rows ↦ sync_operations rows m' ]

    abbrev pub take_lock : Manager Number Text → Manager Number Text
    take_lock m =
        notify_listeners (track (record m { is_syncing = true }) sync_started)
          (record { is_online = true; is_syncing = true; pending_count = 0 })

    unfoldable pub sync_pending_operations : Manager Number Text → SyncResult × Manager Number Text
    unfolding sync_locked
    sync_pending_operations m =
        if m.is_syncing
        then (record { success = false; message = already_in_progress; counts = none }, m)
        else sync_locked (take_lock m)

    -- `getSyncStatus()`
    unfoldable pub get_sync_status : Manager Number Text → SyncStatus × Manager Number Text
    get_sync_status m =
        let (queue, s) = get_queue env.world env.order m.session in
        (
          record {
            is_online = true;
            is_syncing = m.is_syncing;
            pending_count = elim queue [ ok rows ↦ length rows | throw _ ↦ 0 ];
          },
          record m { session = s },
        )
