-- ===== src/App/Analytics/Told.antt =====
-- AnalyticsService: what its report says of whole calls of SyncManager.
use Prim.Native.Char.{code}
use Prim.Native.String as letters
use Prim.Native.String.{◌++◌ as str_append}
use Prim.Native.String.append
use pipeline_azure.Prelude.{
  ℕ, suc, ◌+◌, ◌≡◌, refl, sym, ◌∙◌, ap, false, String, List, [], ◌∷◌, ◌++◌, length, arith,
  string_eq, ◌==◌, eq_iff, if◌then◌else◌,
}
use pipeline_azure.Json.{Json}
use pipeline_azure.App.Storage.{Payload}
use pipeline_azure.App.Sync.{
  Event, sync_started, sync_failed, sync_completed, offline_operation, sync_operation_failed,
  exception, Manager, Environment,
}
use pipeline_azure.App.Sync.Told.{total, starts_of, ends_of, run_calls, starts-run_calls}
use pipeline_azure.App.Analytics.{
  LoggedEvent, Analytics, new_analytics, log_event, track_event, track_offline_operation,
  track_sync_event, track_exception, operation_text, Moment, tell, tell_all, get_report,
}

-- How many of the events have the name.
abbrev pub count_named : String → List LoggedEvent → ℕ
count_named name [] = 0
count_named name (e ∷ events) = (if e.name == name then 1 else 0) + count_named name events

count_named-snoc :
    (name : String) (events : List LoggedEvent) (e : LoggedEvent)
    → count_named name (events ++ e ∷ [])
      ≡ count_named name events + (if e.name == name then 1 else 0)
count_named-snoc name [] e = omega arith
count_named-snoc name (x ∷ events) e = omega (arith, count_named-snoc name events e)

length-snoc :
    (events : List LoggedEvent) (e : LoggedEvent) → length (events ++ e ∷ []) ≡ suc (length events)
length-snoc [] e = refl
length-snoc (x ∷ events) e = omega (arith, length-snoc events e)

-- The name under which a call is logged.
abbrev name_of : Event → String
name_of sync_started = "sync_started"
name_of sync_failed = "sync_failed"
name_of (sync_completed n s f) = "sync_completed"
name_of (offline_operation operation entity) = str_append "offline_" (operation_text operation)
name_of (sync_operation_failed operation entity) = "sync_operation_failed"
name_of (exception operation id entity) = "exception"

abbrev is_named : String → Event → ℕ
is_named name e = if name_of e == name then 1 else 0

first_code : String → ℕ
first_code letters.[] = 0
first_code (letters.◌∷◌ c s) = code c

offline-ne : (s t : String) → first_code t ≡ 115 → (str_append "offline_" s == t) ≡ false
unfolding first_code
offline-ne s t h =
    let p = ap first_code (sym (append.cons "o" "ffline_" s)) in
    ground (
      arith,
      eq_iff (str_append "offline_" s) t,
      λ (e : str_append "offline_" s ≡ t). p ∙ ap first_code e ∙ h,
    )

total-same :
    (f g : Event → ℕ) (events : List Event)
    → ((e : Event) → f e ≡ g e)
    → total f events ≡ total g events
total-same f g [] h = refl
total-same f g (e ∷ events) h = omega (arith, h e, total-same f g events h)

total-sum :
    (f g h : Event → ℕ) (events : List Event)
    → ((e : Event) → f e ≡ g e + h e)
    → total f events ≡ total g events + total h events
total-sum f g h [] k = refl
total-sum f g h (e ∷ events) k = omega (arith, k e, total-sum f g h events k)

started-starts_of : (e : Event) → is_named "sync_started" e ≡ starts_of e
unfolding first_code
started-starts_of sync_started = refl
started-starts_of sync_failed = refl
started-starts_of (sync_completed n s f) = refl
started-starts_of (offline_operation operation entity) =
    rw (offline-ne (operation_text operation) "sync_started" refl) refl
started-starts_of (sync_operation_failed operation entity) = refl
started-starts_of (exception operation id entity) = refl

ended-ends_of : (e : Event) → ends_of e ≡ is_named "sync_completed" e + is_named "sync_failed" e
unfolding first_code
ended-ends_of sync_started = refl
ended-ends_of sync_failed = refl
ended-ends_of (sync_completed n s f) = refl
ended-ends_of (offline_operation operation entity) =
    rw
      (
        offline-ne (operation_text operation) "sync_completed" refl,
        offline-ne (operation_text operation) "sync_failed" refl,
      )
      refl
ended-ends_of (sync_operation_failed operation entity) = refl
ended-ends_of (exception operation id entity) = refl

count_named-tell :
    (name : String) (t : Moment) (e : Event) (a : Analytics)
    → count_named name (tell t e a).events ≡ count_named name a.events + is_named name e
unfolding tell track_sync_event track_offline_operation track_event track_exception log_event
count_named-tell name t sync_started a = count_named-snoc name a.events _
count_named-tell name t sync_failed a = count_named-snoc name a.events _
count_named-tell name t (sync_completed n s f) a = count_named-snoc name a.events _
count_named-tell name t (offline_operation operation entity) a = count_named-snoc name a.events _
count_named-tell name t (sync_operation_failed operation entity) a =
    count_named-snoc name a.events _
count_named-tell name t (exception operation id entity) a = count_named-snoc name a.events _

count_named-tell_all :
    (name : String) (clock : ℕ → Moment) (events : List Event) (a : Analytics)
    → count_named name (tell_all clock events a).events
      ≡ count_named name a.events + total (is_named name) events
unfolding tell_all
count_named-tell_all name clock [] a = omega arith
count_named-tell_all name clock (e ∷ events) a = omega (
  arith,
  count_named-tell_all name (λ n. clock (suc n)) events (tell (clock 0) e a),
  count_named-tell name (clock 0) e a,
)

length-tell :
    (t : Moment) (e : Event) (a : Analytics) → length (tell t e a).events ≡ suc (length a.events)
unfolding tell track_sync_event track_offline_operation track_event track_exception log_event
length-tell t sync_started a = length-snoc a.events _
length-tell t sync_failed a = length-snoc a.events _
length-tell t (sync_completed n s f) a = length-snoc a.events _
length-tell t (offline_operation operation entity) a = length-snoc a.events _
length-tell t (sync_operation_failed operation entity) a = length-snoc a.events _
length-tell t (exception operation id entity) a = length-snoc a.events _

length-tell_all :
    (clock : ℕ → Moment) (events : List Event) (a : Analytics)
    → length (tell_all clock events a).events ≡ length a.events + length events
unfolding tell_all
length-tell_all clock [] a = omega arith
length-tell_all clock (e ∷ events) a = omega (
  arith,
  length-tell_all (λ n. clock (suc n)) events (tell (clock 0) e a),
  length-tell (clock 0) e a,
)

-- After any calls of `syncPendingOperations`, each with what the server, the database and other tasks
-- do meanwhile, from a manager that has told as many starts as ends: the report counts every event,
-- and as many calls that started as calls that were completed or failed.
pub report-run_calls :
    {Number Text : Type 0} (json : Json Text (Payload Number))
    (calls : List (Environment Number Text)) (m : Manager Number Text) (clock : ℕ → Moment)
    → total starts_of m.events ≡ total ends_of m.events
    → let events = (run_calls json calls m).events in
      let report = get_report (tell_all clock events new_analytics) in
      (report.total_events ≡ length events)
      × (count_named "sync_started" report.events
          ≡ count_named "sync_completed" report.events + count_named "sync_failed" report.events)
unfolding get_report
report-run_calls json calls m clock h =
    let events = (run_calls json calls m).events in
    (
      omega (arith, length-tell_all clock events new_analytics),
      omega (
        arith,
        count_named-tell_all "sync_started" clock events new_analytics,
        count_named-tell_all "sync_completed" clock events new_analytics,
        count_named-tell_all "sync_failed" clock events new_analytics,
        total-same (is_named "sync_started") starts_of events started-starts_of,
        total-sum ends_of (is_named "sync_completed") (is_named "sync_failed") events ended-ends_of,
        starts-run_calls json calls m h,
      ),
    )
