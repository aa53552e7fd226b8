-- ===== src/App/Sync/Lock.antt =====
-- SyncManager: the lock `isSyncing`.
use pipeline_azure.Prelude.{◌≡◌, refl, false, inl, inr, Bool-cases, List, [], ◌∷◌, arith}
use pipeline_azure.Json.{Json}
use pipeline_azure.App.Database.{QueueRow}
use pipeline_azure.App.Storage.{Payload}
use pipeline_azure.App.Sync.{
  Manager, Environment, Counts, conclude, sync_each, take_lock, sync_operations, sync_locked,
  sync_pending_operations,
}

module _ {Number Text : Type 0} (json : Json Text (Payload Number))
    (env : Environment Number Text) where
  conclude-is_syncing :
      (rows : List (QueueRow Text)) (cm : Counts × Manager Number Text)
      → (conclude json env rows cm).1.is_syncing ≡ false
  unfolding conclude
  conclude-is_syncing rows (c, m) = ground arith

  sync_operations-is_syncing :
      (rows : List (QueueRow Text)) (m : Manager Number Text)
      → (sync_operations json env rows m).1.is_syncing ≡ false
  unfolding sync_operations
  sync_operations-is_syncing [] m = refl
  sync_operations-is_syncing (r ∷ rows) m =
      conclude-is_syncing (r ∷ rows)
        (sync_each json env (r ∷ rows) (record { success = 0; failure = 0 }, m))

  sync_locked-is_syncing : (m : Manager Number Text) → (sync_locked json env m).1.is_syncing ≡ false
  unfolding sync_locked
  sync_locked-is_syncing m = grind (arith, sync_operations-is_syncing)

  -- A call leaves the lock as it found it: taken, if another call holds it, and else released,
  -- whatever the server answers and whichever statement fails.
  pub is_syncing-sync_pending_operations :
      (m : Manager Number Text) → (sync_pending_operations json env m).1.is_syncing ≡ m.is_syncing
  unfolding sync_pending_operations
  is_syncing-sync_pending_operations m = elim (Bool-cases m.is_syncing) [
    | inl held ↦ ground arith
    | inr free ↦ ground (arith, sync_locked-is_syncing (take_lock json env m))
  ]
