-- ===== src/App/Network/Starved.antt =====
-- useNetworkStatus: changes that are made after a mount on an empty queue.
use mathlib.Core.Path.{subst}
use pipeline_azure.Prelude.{
  ◌≡◌, refl, sym, ◌∙◌, ap, false, ℕ, suc, ◌+◌, some, List, [], ◌∷◌, ◌++◌, Bool, true, arith, nat_eq,
  length,
}
use pipeline_azure.Json.{Json}
use pipeline_azure.App.Database.{pending, QueueRow, Database, Session, select}
use pipeline_azure.App.Storage.{Payload, pending_rows, get_queue, insert_queue_row}
use pipeline_azure.App.Storage.Queue.{
  Change, adds, updates, removes, clears, perform, outcome, perform-eq-outcome, on_queue, on_cart,
}
use pipeline_azure.App.Sync.{Request, Manager, Environment, get_sync_status}
use pipeline_azure.App.Network.{
  App, Event, net_info, fetched, rendered, status_read, manual_sync, changed, mount, run, step,
  on_net_info, on_status_read, after_render, run_effect,
}

module _ {Number : Type 0} where
  abbrev pub added : Event Number → ℕ → ℕ
  added (changed c) n = suc n
  added _ n = n

  -- How many changes are made.
  abbrev pub changes : List (Event Number) → ℕ
  changes [] = 0
  changes (e ∷ events) = added e (changes events)

  abbrev pub is_manual : Event Number → Bool
  is_manual manual_sync = true
  is_manual _ = false

  abbrev pub NoManual : List (Event Number) → Type 0
  NoManual [] = Unit {0}
  NoManual (e ∷ events) = (is_manual e ≡ false) × NoManual events

one_more :
    {Text : Type 0} (rows : List (QueueRow Text)) (r : QueueRow Text)
    → r.status ≡ pending
    → length (pending_rows (rows ++ r ∷ [])) ≡ suc (length (pending_rows rows))
unfolding pending_rows
one_more [] r h = ground (arith, h)
one_more (o ∷ rows) r h = ground (arith, one_more rows r h)

module _ {Number Text : Type 0} (json : Json Text (Payload Number)) (env : Environment Number Text)
    (fine : (n : ℕ) → env.world.fails n ≡ false) where
  -- A hook that watches a count of 0 and waits for no status, and `n` pending rows.
  record Idle (n : ℕ) (sent : List (Request Number)) (a : App Number Text) : Type 0 where
    watched : a.hook.watched ≡ 0
    shown : a.hook.sync_status.pending_count ≡ 0
    reads : a.hook.reads ≡ 0
    requests : a.manager.requests ≡ sent
    opened :
        (d : Database Number Text) × (a.manager.session.db ≡ some d)
        × (length (pending_rows d.offline_queue) ≡ n)

  length-perform :
      (c : Change Number) (now later : ℕ) (d : Database Number Text)
      → length (pending_rows (on_queue json c later (on_cart json c now d)).offline_queue)
        ≡ suc (length (pending_rows d.offline_queue))
  unfolding on_queue on_cart insert_queue_row pending_rows
  length-perform (adds i) now later d = one_more d.offline_queue _ refl
  length-perform (updates id q) now later d = one_more d.offline_queue _ refl
  length-perform (removes id) now later d = one_more d.offline_queue _ refl
  length-perform clears now later d = one_more d.offline_queue _ refl

  queued :
      (c : Change Number) (s : Session Number Text) (d : Database Number Text)
      → s.db ≡ some d
      → (perform json env.world c s).1.db
        ≡ some (
            on_queue json c
              (env.world.stamp (s.moment + 1))
              (on_cart json c (env.world.stamp s.moment) d))
  unfolding outcome
  queued c s d opened =
      ap (λ o. o.1.db) (perform-eq-outcome json env.world c s)
      ∙ ground (arith, opened, fine s.moment, fine (s.moment + 1))

  step-Idle :
      (n : ℕ) (sent : List (Request Number)) (e : Event Number) (a : App Number Text)
      → is_manual e ≡ false
      → Idle n sent a
      → Idle (added e n) sent (step json env e a)
  unfolding step on_net_info on_status_read after_render
  step-Idle n sent (changed c) a h i =
      let (d, opened, count) = i.opened in
      let s = a.manager.session in
      record {
        watched = i.watched;
        shown = i.shown;
        reads = i.reads;
        requests = i.requests;
        opened = (
          on_queue json c (env.world.stamp (s.moment + 1))
              (on_cart json c (env.world.stamp s.moment) d),
          queued c s d opened,
          length-perform c (env.world.stamp s.moment) (env.world.stamp (s.moment + 1)) d
              ∙ ap suc count,
        );
      }
  step-Idle n sent (net_info b) a h i = grind (arith, i.watched)
  step-Idle n sent (fetched b) a h i = record {
    watched = i.watched;
    shown = i.shown;
    reads = i.reads;
    requests = i.requests;
    opened = i.opened;
  }
  step-Idle n sent rendered a h i =
      let still : after_render a ≡ a = ground (arith, i.watched, i.shown) in
      subst (Idle n sent) (sym still) i
  step-Idle n sent status_read a h i =
      let still : on_status_read json env a ≡ a = ground (arith, i.reads) in
      subst (Idle n sent) (sym still) i
  step-Idle n sent manual_sync a h i = absurd (ground (arith, h))

  added-changes :
      (e : Event Number) (events : List (Event Number)) (n : ℕ)
      → changes events + added e n ≡ changes (e ∷ events) + n
  added-changes e events n = ground arith

  run-Idle :
      (events : List (Event Number)) (n : ℕ) (sent : List (Request Number)) (a : App Number Text)
      → NoManual events
      → Idle n sent a
      → Idle (changes events + n) sent (run json env events a)
  unfolding run
  run-Idle [] n sent a h i = subst (λ k. Idle k sent a) (omega arith) i
  run-Idle (e ∷ events) n sent a (first, h) i =
      subst (λ k. Idle k sent (run json env (e ∷ events) a)) (added-changes e events n)
        (run-Idle events (added e n) sent (step json env e a) h (step-Idle n sent e a first i))

  first_read-Idle :
      (m : Manager Number Text) (d : Database Number Text)
      → m.session.db ≡ some d
      → pending_rows d.offline_queue ≡ []
      → env.order [] ≡ []
      → Idle 0 m.requests (step json env status_read (mount m))
  unfolding step on_status_read run_effect get_sync_status get_queue select
  first_read-Idle m d opened none_yet o = record {
    watched = refl;
    shown = ground (arith, opened, fine m.session.moment, none_yet, o);
    reads = refl;
    requests = refl;
    opened = (d, ground (arith, opened, fine m.session.moment), rw none_yet refl);
  }

  -- As long as one screen alone has mounted the hook (a screen that mounts it later reads the count
  -- again, which is not covered): after a mount whose first read finds an empty queue, no change that is
  -- made later is sent, however often the network comes back, until the app calls `manualSync`: while no
  -- statement fails, each of the changes stays in the queue, and no request goes out. The query returns
  -- no row of an empty table.
  pub requests-run :
      (events : List (Event Number)) (m : Manager Number Text) (d : Database Number Text)
      → NoManual events
      → m.session.db ≡ some d
      → pending_rows d.offline_queue ≡ []
      → env.order [] ≡ []
      → let a = run json env (status_read ∷ events) (mount m) in
        (a.manager.requests ≡ m.requests)
        × (d' : Database Number Text) × (a.manager.session.db ≡ some d')
        × (length (pending_rows d'.offline_queue) ≡ changes events)
  unfolding run
  requests-run events m d h opened none_yet o =
      let i = run-Idle events 0 m.requests _ h (first_read-Idle m d opened none_yet o) in
      let (d', opened', count) = i.opened in (i.requests, d', opened', omega (arith, count))
