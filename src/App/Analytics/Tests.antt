-- ===== src/App/Analytics/Tests.antt =====
-- AnalyticsService on concrete calls.
use pipeline_azure.Prelude.{none, ℕ, ◌≡◌, refl, ◌+◌, [], ◌∷◌, length, string_eq}
use pipeline_azure.Json.{plain_json}
use pipeline_azure.App.Sync.{sync_started, sync_completed}
use pipeline_azure.App.Sync.Tests.{idle, env}
use pipeline_azure.App.Sync.Told.{run_calls}
use pipeline_azure.App.Analytics.{
  new_analytics, Moment, text, number, date, tell_all, get_report, log_event, track_sync_event,
  track_performance, track_metric, track_exception, clear_data,
}
use pipeline_azure.App.Analytics.Told.{count_named, report-run_calls}

abbrev clock : ℕ → Moment
clock n = record { now = n; duration = 5; message = "offline"; stack = "" }

report-run_calls_example :
    let events = (run_calls plain_json (env ∷ env ∷ []) idle).events in
    let report = get_report (tell_all clock events new_analytics) in
    (report.total_events ≡ length events)
    × (count_named "sync_started" report.events
        ≡ count_named "sync_completed" report.events + count_named "sync_failed" report.events)
report-run_calls_example = report-run_calls plain_json (env ∷ env ∷ []) idle clock refl

tell_all_example :
    (tell_all clock (sync_started ∷ sync_completed 2 1 1 ∷ []) new_analytics).events
    ≡ record {
      name = "sync_started";
      params = ("timestamp", date 0) ∷ ("type", text "sync") ∷ [];
      timestamp = 0;
    }
      ∷ record {
        name = "sync_completed";
        params =
            ("duration", number 5)
            ∷ ("operationsCount", number 2)
            ∷ ("successCount", number 1)
            ∷ ("failureCount", number 1)
            ∷ ("type", text "sync")
            ∷ [];
        timestamp = 1;
      }
      ∷ []
unfolding tell_all track_sync_event log_event
tell_all_example = refl

-- The parameters that are passed replace the duration, and not the type.
track_performance_example :
    track_performance "query" 8
      (("duration", number 2) ∷ ("type", text "slow") ∷ [])
      3
      new_analytics
    ≡ record {
      events =
          record {
            name = "performance_query";
            params = ("duration", number 2) ∷ ("type", text "performance") ∷ [];
            timestamp = 3;
          }
          ∷ [];
      metrics = record { name = "perf_query"; value = 8; tags = none; timestamp = 3 } ∷ [];
    }
unfolding track_performance track_metric log_event
track_performance_example = refl

clear_data_example :
    (get_report (clear_data (track_exception "lost" "at 1" [] 3 new_analytics))).total_events ≡ 0
unfolding get_report clear_data track_exception log_event
clear_data_example = refl
