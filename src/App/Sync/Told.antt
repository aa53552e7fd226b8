-- ===== src/App/Sync/Told.antt =====
-- SyncManager: what the analytics are told of whole calls.
use pipeline_azure.Prelude.{
  ℕ, suc, ◌+◌, ◌≡◌, refl, sym, ◌∙◌, List, [], ◌∷◌, ◌++◌, arith, Bool-cases, inl, inr, length, ok,
  throw, Result,
}
use pipeline_azure.Json.{Json}
use pipeline_azure.App.Database.{Failure, QueueRow}
use pipeline_azure.App.Storage.{Payload, get_queue}
use pipeline_azure.App.Sync.{
  Event, sync_started, sync_failed, sync_completed, offline_operation, sync_operation_failed,
  exception, give_up, SyncResult, Manager, Environment, Counts, sync_one, sync_each, conclude,
  take_lock, sync_operations, sync_locked, sync_pending_operations, notify_listeners,
}

-- Calls that started, and calls that were completed or failed.
abbrev pub starts_of : Event → ℕ
starts_of sync_started = 1
starts_of _ = 0

abbrev pub ends_of : Event → ℕ
ends_of sync_failed = 1
ends_of (sync_completed n s f) = 1
ends_of _ = 0

abbrev pub total : (Event → ℕ) → List Event → ℕ
total f [] = 0
total f (e ∷ events) = f e + total f events

total-append : (f : Event → ℕ) (xs ys : List Event) → total f (xs ++ ys) ≡ total f xs + total f ys
total-append f [] ys = omega arith
total-append f (x ∷ xs) ys = omega (arith, total-append f xs ys)

total-snoc :
    (f : Event → ℕ) (xs : List Event) (e : Event) → total f (xs ++ e ∷ []) ≡ total f xs + f e
total-snoc f xs e = omega (arith, total-append f xs (e ∷ []))

module _ {Number Text : Type 0} (json : Json Text (Payload Number)) where
  abbrev Marks : Manager Number Text → ℕ → ℕ → Type 0
  Marks m s e = (total starts_of m.events ≡ s) × (total ends_of m.events ≡ e)

  module _ (env : Environment Number Text) where
    sync_one-Marks :
        (r : QueueRow Text) (cm : Counts × Manager Number Text) (s e : ℕ)
        → Marks cm.1 s e
        → Marks (sync_one json env r cm).1 s e
    unfolding sync_one
    sync_one-Marks r (c, m) s e h = ground (
      arith,
      total-snoc starts_of m.events (offline_operation r.operation_type r.entity_type),
      total-snoc starts_of m.events (exception r.operation_type r.id r.entity_type),
      total-snoc starts_of m.events (sync_operation_failed r.operation_type r.entity_type),
      total-snoc ends_of m.events (offline_operation r.operation_type r.entity_type),
      total-snoc ends_of m.events (exception r.operation_type r.id r.entity_type),
      total-snoc ends_of m.events (sync_operation_failed r.operation_type r.entity_type),
    )

    sync_each-Marks :
        (rows : List (QueueRow Text)) (cm : Counts × Manager Number Text) (s e : ℕ)
        → Marks cm.1 s e
        → Marks (sync_each json env rows cm).1 s e
    unfolding sync_each
    sync_each-Marks [] cm s e h = h
    sync_each-Marks (r ∷ rows) cm s e h =
        sync_each-Marks rows (sync_one json env r cm) s e (sync_one-Marks r cm s e h)

    conclude-Marks :
        (rows : List (QueueRow Text)) (cm : Counts × Manager Number Text) (s e : ℕ)
        → Marks cm.1 s e
        → Marks (conclude json env rows cm).1 s (suc e)
    unfolding conclude notify_listeners
    conclude-Marks rows (c, m) s e h = ground (
      arith,
      total-snoc starts_of m.events sync_failed,
      total-snoc starts_of m.events (sync_completed (length rows) c.success c.failure),
      total-snoc ends_of m.events sync_failed,
      total-snoc ends_of m.events (sync_completed (length rows) c.success c.failure),
    )

    sync_operations-Marks :
        (rows : List (QueueRow Text)) (m : Manager Number Text) (s e : ℕ)
        → Marks m s e
        → Marks (sync_operations json env rows m).1 s (suc e)
    unfolding sync_operations notify_listeners
    sync_operations-Marks [] m s e h = ground (
      arith,
      total-snoc starts_of m.events (sync_completed 0 0 0),
      total-snoc ends_of m.events (sync_completed 0 0 0),
    )
    sync_operations-Marks (r ∷ rows) m s e h =
        conclude-Marks (r ∷ rows)
          (sync_each json env (r ∷ rows) (record { success = 0; failure = 0 }, m)) s e
          (sync_each-Marks (r ∷ rows) (record { success = 0; failure = 0 }, m) s e h)

    give_up-Marks :
        (m : Manager Number Text) (s e : ℕ) → Marks m s e → Marks (give_up json env m).1 s (suc e)
    unfolding notify_listeners
    give_up-Marks m s e h =
        ground (
          arith,
          total-snoc starts_of m.events sync_failed,
          total-snoc ends_of m.events sync_failed,
        )

    queue-Marks :
        (queue : Result Failure (List (QueueRow Text))) (m : Manager Number Text) (s e : ℕ)
        → Marks m s e
        → Marks
            (elim queue as (λ x. SyncResult × Manager Number Text) [
              | throw x ↦ give_up json env m
              | ok rows ↦ sync_operations json env rows m
            ]).1
            s
            (suc e)
    queue-Marks (throw x) m s e h = give_up-Marks m s e h
    queue-Marks (ok rows) m s e h = sync_operations-Marks rows m s e h

    sync_locked-Marks :
        (m : Manager Number Text) (s e : ℕ)
        → Marks m s e
        → Marks (sync_locked json env m).1 s (suc e)
    unfolding sync_locked
    sync_locked-Marks m s e h =
        let (queue, after) = get_queue env.world env.order m.session in
        queue-Marks queue (record m { session = after }) s e h

    sync_pending_operations-Marks :
        (m : Manager Number Text) (n : ℕ)
        → Marks m n n
        → (k : ℕ) × Marks (sync_pending_operations json env m).1 k k
    unfolding sync_pending_operations notify_listeners
    sync_pending_operations-Marks m n h = elim (Bool-cases m.is_syncing) [
      | inl held ↦ (n, ground arith)
      | inr free ↦ (
        suc n,
        rw free (
            sync_locked-Marks (take_lock json env m) (suc n) n (
              ground (
                arith,
                total-snoc starts_of m.events sync_started,
                total-snoc ends_of m.events sync_started,
              ))),
      )
    ]

  -- Calls one after the other, each in its own environment.
  unfoldable pub run_calls :
      List (Environment Number Text) → Manager Number Text → Manager Number Text
  unfolding sync_pending_operations
  run_calls [] m = m
  run_calls (env ∷ calls) m = run_calls calls (sync_pending_operations json env m).1

  pub starts-run_calls :
      (calls : List (Environment Number Text)) (m : Manager Number Text)
      → total starts_of m.events ≡ total ends_of m.events
      → total starts_of (run_calls calls m).events ≡ total ends_of (run_calls calls m).events
  unfolding run_calls
  starts-run_calls [] m h = h
  starts-run_calls (env ∷ calls) m h =
      let (k, both) = sync_pending_operations-Marks env m (total ends_of m.events) (h, refl) in
      starts-run_calls calls (sync_pending_operations json env m).1 (both.0 ∙ sym both.1)
