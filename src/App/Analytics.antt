-- ===== src/App/Analytics.antt =====
-- src/Presentation/App/src/infrastructure/services/AnalyticsService.ts, and the calls of it in
-- src/Presentation/App/src/infrastructure/services/SyncManager.ts. What is written to the console is
-- left out.
pub mod Told
mod Tests
use Prim.Native.String.{◌++◌ as str_append}
use pipeline_azure.Prelude.{
  ℕ, suc, ◌+◌, String, List, [], ◌∷◌, ◌++◌, Option, none, some, length, string_eq, ◌==◌,
  if◌then◌else◌,
}
use pipeline_azure.App.Database.{
  OperationType, EntityType, add, update, delete, delete_all, other_type, product, cart_item,
}
use pipeline_azure.App.Sync.{
  Event, sync_started, sync_failed, sync_completed, offline_operation, sync_operation_failed,
  exception,
}

-- The values of parameters: texts, numbers, moments, and the object of a failed operation.
pub data Value : Type 0 where
  text : String → Value
  number date : ℕ → Value
  failed_operation : (operation_id : ℕ) → (entity_type : String) → Value

abbrev pub Params : Type 0
Params = List (String × Value)

pub record LoggedEvent : Type 0 where
  pub name : String
  pub params : Params
  pub timestamp : ℕ

pub record Metric : Type 0 where
  pub name : String
  pub value : ℕ
  pub tags : Option (List (String × String))
  pub timestamp : ℕ

pub record Analytics : Type 0 where
  pub events : List LoggedEvent
  pub metrics : List Metric

abbrev pub new_analytics : Analytics
new_analytics = record { events = []; metrics = [] }

-- `{ ...params, key: value }`
abbrev pub assign : String → Value → Params → Params
assign key value [] = (key, value) ∷ []
assign key value ((k, v) ∷ params) =
    let rest = assign key value params in if k == key then (k, value) ∷ params else (k, v) ∷ rest

-- `{ ...params, ...more }`
abbrev pub spread : Params → Params → Params
spread params [] = params
spread params ((k, v) ∷ more) = spread (assign k v params) more

unfoldable pub log_event : String → Params → ℕ → Analytics → Analytics
log_event name params now a = record a {
  events = a.events ++ record { name = name; params = params; timestamp = now } ∷ [];
}

unfoldable pub track_event : String → Params → (type : String) → ℕ → Analytics → Analytics
unfolding log_event
track_event name params type now a = log_event name (assign "type" (text type) params) now a

unfoldable pub track_metric :
    String → ℕ → Option (List (String × String)) → ℕ → Analytics → Analytics
track_metric name value tags now a = record a {
  metrics = a.metrics ++ record { name = name; value = value; tags = tags; timestamp = now } ∷ [];
}

abbrev pub operation_text : OperationType → String
operation_text add = "add"
operation_text update = "update"
operation_text delete = "delete"
operation_text delete_all = "deleteAll"
operation_text (other_type s) = s

abbrev pub entity_text : EntityType → String
entity_text product = "product"
entity_text cart_item = "cartItem"

unfoldable pub track_offline_operation :
    OperationType → String → (duration now : ℕ) → Analytics → Analytics
unfolding log_event
track_offline_operation operation entity_type duration now a =
    log_event (str_append "offline_" (operation_text operation))
      (("entity_type", text entity_type)
        ∷ ("duration", number duration)
        ∷ ("type", text "offline")
        ∷ [])
      now a

pub data SyncMark : Type 0 where
  started completed failed : SyncMark

abbrev pub mark_text : SyncMark → String
mark_text started = "started"
mark_text completed = "completed"
mark_text failed = "failed"

unfoldable pub track_sync_event : SyncMark → Params → ℕ → Analytics → Analytics
unfolding log_event
track_sync_event mark params now a =
    log_event (str_append "sync_" (mark_text mark)) (assign "type" (text "sync") params) now a

unfoldable pub track_performance : String → ℕ → Params → ℕ → Analytics → Analytics
unfolding log_event track_metric
track_performance operation duration metadata now a =
    log_event (str_append "performance_" operation)
      (assign "type" (text "performance") (spread (("duration", number duration) ∷ []) metadata))
      now (track_metric (str_append "perf_" operation) duration none now a)

unfoldable pub track_exception : (message stack : String) → Params → ℕ → Analytics → Analytics
unfolding log_event
track_exception message stack metadata now a =
    log_event "exception" (spread (("message", text message) ∷ ("stack", text stack) ∷ []) metadata)
      now a

unfoldable pub clear_data : Analytics → Analytics
clear_data a = record a { events = []; metrics = [] }

pub record Report : Type 0 where
  pub events : List LoggedEvent
  pub metrics : List Metric
  pub total_events : ℕ
  pub total_metrics : ℕ

unfoldable pub get_report : Analytics → Report
get_report a = record {
  events = a.events;
  metrics = a.metrics;
  total_events = length a.events;
  total_metrics = length a.metrics;
}

-- What a call of SyncManager knows besides: the time, how long it took, and the error.
pub record Moment : Type 0 where
  pub now : ℕ
  pub duration : ℕ
  pub message : String
  pub stack : String

-- The call that SyncManager makes.
unfoldable pub tell : Moment → Event → Analytics → Analytics
unfolding track_sync_event track_offline_operation track_event track_exception
tell t sync_started a = track_sync_event started (("timestamp", date t.now) ∷ []) t.now a
tell t sync_failed a =
    track_sync_event failed (("duration", number t.duration) ∷ ("error", text t.message) ∷ []) t.now
      a
tell t (sync_completed operations success failure) a =
    track_sync_event completed
      (("duration", number t.duration)
        ∷ ("operationsCount", number operations)
        ∷ ("successCount", number success)
        ∷ ("failureCount", number failure)
        ∷ [])
      t.now a
tell t (offline_operation operation entity) a =
    track_offline_operation operation (entity_text entity) t.duration t.now a
tell t (sync_operation_failed operation entity) a =
    track_event "sync_operation_failed"
      (("operation_type", text (operation_text operation))
        ∷ ("entity_type", text (entity_text entity))
        ∷ ("duration_ms", number t.duration)
        ∷ [])
      "user" t.now a
tell t (exception operation id entity) a =
    track_exception t.message t.stack
      (("operation", text (str_append "sync_operation_" (operation_text operation)))
        ∷ ("metadata", failed_operation id (entity_text entity))
        ∷ [])
      t.now a

-- All calls, with the moment of each.
unfoldable pub tell_all : (ℕ → Moment) → List Event → Analytics → Analytics
unfolding tell
tell_all clock [] a = a
tell_all clock (e ∷ events) a = tell_all (λ n. clock (suc n)) events (tell (clock 0) e a)
