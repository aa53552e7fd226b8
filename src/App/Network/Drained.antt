-- ===== src/App/Network/Drained.antt =====
-- useNetworkStatus: what a network that comes back does to the queue that the hook watches.
use mathlib.Core.Path.{subst}
use pipeline_azure.Prelude.{
  ℕ, ◌<◌, ◌≡◌, ◌∙◌, ap, refl, sym, true, false, some, List, [], ◌∷◌, ◌++◌, arith, nat_eq, ◌==◌,
  some_by, All,
}
use pipeline_azure.Json.{Json}
use pipeline_azure.App.Database.{QueueRow, Database}
use pipeline_azure.App.Storage.{Payload, pending_rows}
use pipeline_azure.App.Sync.{Manager, Environment}
use pipeline_azure.App.Sync.Rows.{Below, Fresh, drop_id}
use pipeline_azure.App.Sync.Accepted.{is_accepted}
use pipeline_azure.App.Sync.Kept.{keep}
use pipeline_azure.App.Sync.Whole.{sync_pending_operations-KeptBy}
use pipeline_azure.App.Network.{App, net_info, step, on_net_info, sync}

module _ {Number Text : Type 0} (json : Json Text (Payload Number))
    (env : Environment Number Text) where
  -- The server accepts each of the operations.
  abbrev pub AllAccepted : List (QueueRow Text) → Type 0
  AllAccepted = All (λ r. is_accepted json env r ≡ true)

  -- Each of the rows is of the id of an operation.
  abbrev pub Covers : List (QueueRow Text) → List (QueueRow Text) → Type 0
  Covers operations = All (λ r. some_by (λ o. o.id == r.id) operations ≡ true)

  Covers-drop_id :
      (o : QueueRow Text) (operations rows : List (QueueRow Text))
      → Covers (o ∷ operations) rows
      → Covers operations (drop_id o.id rows)
  Covers-drop_id o operations [] c = tt
  Covers-drop_id o operations (r ∷ rows) (here, c) =
      ground (arith, Covers-drop_id o operations rows c)

  Covers-nil : (rows : List (QueueRow Text)) → Covers [] rows → rows ≡ []
  Covers-nil [] c = refl
  Covers-nil (r ∷ rows) (here, c) = absurd (ground (arith, here))

  keep_none :
      (operations rows : List (QueueRow Text))
      → AllAccepted operations
      → Covers operations rows
      → keep json env operations rows ≡ []
  unfolding keep
  keep_none [] rows a c = Covers-nil rows c
  keep_none (o ∷ operations) rows (yes', a) c =
      rw yes' (keep_none operations (drop_id o.id rows) a (Covers-drop_id o operations rows c))

  -- When the network comes back while the hook watches a count above 0 and no call runs, and while
  -- no statement fails and the server accepts each operation, no row that was pending is pending
  -- afterwards: each row that is left is of an id that was not yet in use. The query returns rows
  -- of ids in use, and every pending row.
  pub pending_rows-net_info :
      ((n : ℕ) → env.world.fails n ≡ false)
      → (a : App Number Text) (d : Database Number Text) → 0 < a.hook.watched
      → a.manager.is_syncing ≡ false
      → a.manager.session.db ≡ some d
      → let rows = pending_rows d.offline_queue in
        Below d.next_id (env.order rows)
        → AllAccepted (env.order rows)
        → Covers (env.order rows) rows
        → (d' : Database Number Text) × ((step json env (net_info (some true)) a).manager.session.db
            ≡ some d')
          × Fresh d.next_id (pending_rows d'.offline_queue)
  unfolding step on_net_info sync
  pending_rows-net_info fine a d watched free opened below accepted covered =
      let m : Manager Number Text = record a.manager { delivered = [] } in
      let rows = pending_rows d.offline_queue in
      let (d', opened', k) = sync_pending_operations-KeptBy json env fine m d free opened below in
      (
        d',
        ground (arith, watched, opened'),
        subst (Fresh d.next_id)
            (sym
              (k.queued ∙ ap (λ q. q ++ k.new) (keep_none (env.order rows) rows accepted covered)))
            k.fresh,
      )
