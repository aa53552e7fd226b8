-- ===== src/App/Sync/Whole.antt =====
-- SyncManager: a whole call, and what it leaves in the queue.
use mathlib.Core.List.{append_assoc, append-nil}
use pipeline_azure.Prelude.{ℕ, ◌+◌, ◌≡◌, refl, ◌∙◌, false, some, List, [], ◌∷◌, ◌++◌, arith, ap}
use pipeline_azure.Json.{Json}
use pipeline_azure.App.Database.{QueueRow, Database, execute, select}
use pipeline_azure.App.Storage.Queue.{Change}
use pipeline_azure.App.Storage.{Payload, pending_rows, get_queue, clear_queue}
use pipeline_azure.App.Sync.{
  Manager, Environment, Counts, arrive, conclude, sync_each, sync_operations, sync_locked,
  take_lock, sync_pending_operations, notify_listeners,
}
use pipeline_azure.App.Sync.Rows.{Below, Fresh-append, Fresh-mono}
use pipeline_azure.App.Sync.Kept.{KeptBy, keep, during, both_told, arrive-Arrived, sync_each-KeptBy}

pending_rows_idem :
    {Text : Type 0} (rows : List (QueueRow Text))
    → pending_rows (pending_rows rows) ≡ pending_rows rows
unfolding pending_rows
pending_rows_idem [] = refl
pending_rows_idem (r ∷ rows) = ground (arith, pending_rows_idem rows)

module _ {Number Text : Type 0} (json : Json Text (Payload Number)) (env : Environment Number Text)
    (fine : (n : ℕ) → env.world.fails n ≡ false) where
  -- The changes that others make during a call with these operations: while each is at the server, and,
  -- if there is one, before the queue is cleared.
  abbrev pub all_during : List (QueueRow Text) → List (Change Number)
  all_during [] = []
  all_during (r ∷ rows) = during json env (r ∷ rows) ++ env.at_end

  -- The tables after the changes of others and `clearQueue`.
  cleared : ℕ → Database Number Text → Database Number Text
  cleared now d =
      let d' = arrive json env env.at_end now d in
      record d' { offline_queue = pending_rows d'.offline_queue }

  cleared-KeptBy :
      (rows : List (QueueRow Text)) (changes : List (Change Number)) (d d' : Database Number Text)
      (now : ℕ)
      → KeptBy json env rows changes d d'
      → KeptBy json env rows (changes ++ env.at_end) d (cleared now d')
  unfolding cleared
  cleared-KeptBy rows changes d d' now k =
      let a = arrive-Arrived json env env.at_end now d' in
      record {
        new = k.new ++ a.new;
        queued =
            pending_rows_idem _
            ∙ a.queued
            ∙ ap (λ q. q ++ a.new) k.queued
            ∙ append_assoc _ k.new a.new;
        fresh =
            Fresh-append d.next_id k.new a.new k.fresh
              (Fresh-mono d.next_id _ a.new k.grows a.fresh);
        grows = omega (arith, k.grows, a.grows);
        told = both_told json k.new a.new changes env.at_end k.told a.told;
      }

  conclude-db :
      (rows : List (QueueRow Text)) (c : Counts) (m : Manager Number Text)
      (d : Database Number Text)
      → m.session.db ≡ some d
      → (conclude json env rows (c, m)).1.session.db
        ≡ some (cleared (env.world.stamp m.session.moment) d)
  unfolding conclude cleared clear_queue execute
  conclude-db rows c m d opened = ground (arith, fine m.session.moment)

  sync_operations-KeptBy :
      (rows : List (QueueRow Text)) (m : Manager Number Text) (d : Database Number Text)
      → m.session.db ≡ some d
      → Below d.next_id rows
      → (d' : Database Number Text) × ((sync_operations json env rows m).1.session.db ≡ some d')
        × KeptBy json env rows (all_during rows) d d'
  unfolding sync_operations keep
  sync_operations-KeptBy [] m d opened b = (
    d,
    opened,
    record { new = []; queued = rw append-nil; fresh = tt; grows = omega arith; told = refl },
  )
  sync_operations-KeptBy (r ∷ rows) m d opened b =
      let start : Counts = record { success = 0; failure = 0 } in
      let (d', opened', k) = sync_each-KeptBy json env (r ∷ rows) start m d opened fine b in
      let (c', m') = sync_each json env (r ∷ rows) (start, m) in
      (
        cleared (env.world.stamp m'.session.moment) d',
        conclude-db (r ∷ rows) c' m' d' opened',
        cleared-KeptBy (r ∷ rows) (during json env (r ∷ rows)) d d' _ k,
      )

  sync_locked-eq :
      (m : Manager Number Text) (d : Database Number Text)
      → m.session.db ≡ some d
      → sync_locked json env m
        ≡ sync_operations json env
            (env.order (pending_rows d.offline_queue))
            (record m { session = record m.session { moment = m.session.moment + 1 } })
  unfolding sync_locked get_queue select
  sync_locked-eq m d opened = ground (arith, fine m.session.moment)

  -- A call on a free lock and an open database, while no statement fails: the rows that are pending
  -- afterwards are those that were pending before, without those whose request the server accepted, as
  -- the API of the carts has it, and then one row for each change that others made during the call, in
  -- their order, with its operation, its identifier and its payload. The rows that the query returns are
  -- of ids in use, as those in the table are.
  pub sync_pending_operations-KeptBy :
      (m : Manager Number Text) (d : Database Number Text)
      → m.is_syncing ≡ false
      → m.session.db ≡ some d
      → Below d.next_id (env.order (pending_rows d.offline_queue))
      → (d' : Database Number Text) × ((sync_pending_operations json env m).1.session.db ≡ some d')
        × KeptBy json env
            (env.order (pending_rows d.offline_queue))
            (all_during (env.order (pending_rows d.offline_queue)))
            d
            d'
  unfolding sync_pending_operations notify_listeners
  sync_pending_operations-KeptBy m d free opened b =
      rw (free, sync_locked-eq (take_lock json env m) d opened)
        (sync_operations-KeptBy (env.order (pending_rows d.offline_queue)) _ d opened b)
