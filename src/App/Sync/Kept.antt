-- ===== src/App/Sync/Kept.antt =====
-- SyncManager: the rows that are still pending after a call.
use mathlib.Core.List.{map-append, map, append_assoc, append-nil}
use pipeline_azure.Prelude.{
  sym, ℕ, suc, ◌≤◌, ◌≡◌, refl, ◌∙◌, false, some, List, [], ◌∷◌, ◌++◌, arith, Bool-cases, inl, inr,
  if◌then◌else◌, ap, nat_eq,
}
use pipeline_azure.Json.{Json}
use pipeline_azure.App.Database.{
  delete_all, delete, update, cart_item, EntityType, add, OperationType, QueueRow, Database,
  execute,
}
use pipeline_azure.App.Storage.{
  empty, quantity, item, Payload, mark_rows, pending_rows, remove_from_queue, insert_queue_row,
}
use pipeline_azure.App.Storage.Queue.{Change, adds, updates, removes, clears, on_cart, on_queue}
use pipeline_azure.App.Sync.{Option, Manager, Environment, Counts, arrive, sync_one, sync_each}
use pipeline_azure.App.Sync.Accepted.{is_accepted, sync_operation-is_accepted}
use pipeline_azure.App.Sync.Rows.{
  drop_id, Below, Fresh, pending_rows-append, pending_rows-mark_rows, drop_id-append, drop_id-fresh,
  Fresh-append, Fresh-mono,
}

-- What a change of the cart is queued as: the operation, its entity, the identifier and the payload.
abbrev pub Meaning : Type 0 → Type 0
Meaning Number = OperationType × EntityType × ℕ × Option (Payload Number)

abbrev pub meaning : {Number : Type 0} → Change Number → Meaning Number
meaning (adds i) = (add, cart_item, i.id, some (item i))
meaning (updates id q) = (update, cart_item, id, some (quantity q))
meaning (removes id) = (delete, cart_item, id, some empty)
meaning clears = (delete_all, cart_item, 0, some empty)

module _ {Number Text : Type 0} (json : Json Text (Payload Number)) where
  abbrev pub read_row : QueueRow Text → Meaning Number
  read_row r = (r.operation_type, r.entity_type, r.entity_id, json.parse r.payload)

  -- What other tasks do to the tables: `new` rows are queued, one for each change and with its meaning,
  -- each under an id that was not in use.
  pub record Arrived (changes : List (Change Number)) (d d' : Database Number Text) : Type 0 where
    pub new : List (QueueRow Text)
    pub queued : pending_rows d'.offline_queue ≡ pending_rows d.offline_queue ++ new
    pub fresh : Fresh d.next_id new
    pub grows : d.next_id ≤ d'.next_id
    pub told : map read_row new ≡ map meaning changes

  pub both_told :
      (new more : List (QueueRow Text)) (changes later : List (Change Number))
      → map read_row new ≡ map meaning changes
      → map read_row more ≡ map meaning later
      → map read_row (new ++ more) ≡ map meaning (changes ++ later)
  both_told new more changes later first rest =
      map-append read_row new more
      ∙ (λ k. first k ++ rest k)
      ∙ sym (map-append meaning changes later)

module _ {Number Text : Type 0} (json : Json Text (Payload Number)) where
  change-Arrived :
      (c : Change Number) (now : ℕ) (d : Database Number Text)
      → Arrived json (c ∷ []) d (on_queue json c now (on_cart json c now d))
  unfolding on_queue on_cart insert_queue_row pending_rows
  change-Arrived (adds i) now d = record {
    new = _;
    queued = pending_rows-append d.offline_queue _;
    fresh = (omega arith, tt);
    grows = omega arith;
    told = rw (json.parse-stringify (item i)) refl;
  }
  change-Arrived (updates id q) now d = record {
    new = _;
    queued = pending_rows-append d.offline_queue _;
    fresh = (omega arith, tt);
    grows = omega arith;
    told = rw (json.parse-stringify (quantity q)) refl;
  }
  change-Arrived (removes id) now d = record {
    new = _;
    queued = pending_rows-append d.offline_queue _;
    fresh = (omega arith, tt);
    grows = omega arith;
    told = rw (json.parse-stringify empty) refl;
  }
  change-Arrived clears now d = record {
    new = _;
    queued = pending_rows-append d.offline_queue _;
    fresh = (omega arith, tt);
    grows = omega arith;
    told = rw (json.parse-stringify empty) refl;
  }

  module _ (env : Environment Number Text) where
    pub arrive-Arrived :
        (changes : List (Change Number)) (now : ℕ) (d : Database Number Text)
        → Arrived json changes d (arrive json env changes now d)
    unfolding arrive
    arrive-Arrived [] now d = record {
      new = [];
      queued = rw append-nil;
      fresh = tt;
      grows = omega arith;
      told = refl;
    }
    arrive-Arrived (c ∷ changes) now d =
        let first = change-Arrived c now d in
        let rest = arrive-Arrived changes now (on_queue json c now (on_cart json c now d)) in
        record {
          new = first.new ++ rest.new;
          queued =
              rest.queued
              ∙ ap (λ q. q ++ rest.new) first.queued
              ∙ append_assoc _ first.new rest.new;
          fresh =
              Fresh-append d.next_id first.new rest.new first.fresh
                (Fresh-mono d.next_id _ rest.new (omega (arith, first.grows)) rest.fresh);
          grows = omega (arith, first.grows, rest.grows);
          told = both_told json first.new rest.new (c ∷ []) changes first.told rest.told;
        }

    -- The rows that stay when the operations have been tried: the server accepted none of their ids.
    unfoldable pub keep : List (QueueRow Text) → List (QueueRow Text) → List (QueueRow Text)
    keep [] rows = rows
    keep (r ∷ operations) rows =
        keep operations (if is_accepted json env r then drop_id r.id rows else rows)

    keep-append :
        (n : ℕ) (operations rows new : List (QueueRow Text))
        → Below n operations
        → Fresh n new
        → keep operations (rows ++ new) ≡ keep operations rows ++ new
    unfolding keep
    keep-append n [] rows new b f = refl
    keep-append n (r ∷ operations) rows new (below, b) f =
        elim (Bool-cases (is_accepted json env r)) [
          | inl yes' ↦
              rw (yes', drop_id-append r.id rows new, drop_id-fresh r.id n new below f)
                (keep-append n operations (drop_id r.id rows) new b f)
          | inr no' ↦ rw no' (keep-append n operations rows new b f)
        ]

    -- The tables after one round, if no statement fails.
    abbrev after_one : QueueRow Text → ℕ → Database Number Text → Database Number Text
    after_one r now d =
        let d' = arrive json env (env.meanwhile r.id) now d in
        if is_accepted json env r
        then record d' { offline_queue = mark_rows now r.id d'.offline_queue }
        else d'

    sync_one-db :
        (r : QueueRow Text) (c : Counts) (m : Manager Number Text) (d : Database Number Text)
        → m.session.db ≡ some d
        → env.world.fails m.session.moment ≡ false
        → (sync_one json env r (c, m)).1.session.db
          ≡ some (after_one r (env.world.stamp m.session.moment) d)
    unfolding sync_one remove_from_queue execute
    sync_one-db r c m d opened fine = ground (arith, sync_operation-is_accepted json env r)

    -- How the tables come out of the loop over some operations, while others make some changes.
    pub record KeptBy (operations : List (QueueRow Text)) (changes : List (Change Number))
        (d d' : Database Number Text) : Type 0 where
      pub new : List (QueueRow Text)
      pub queued :
          pending_rows d'.offline_queue ≡ keep operations (pending_rows d.offline_queue) ++ new
      pub fresh : Fresh d.next_id new
      pub grows : d.next_id ≤ d'.next_id
      pub told : map (read_row json) new ≡ map meaning changes

    -- The changes while the operations are at the server.
    abbrev pub during : List (QueueRow Text) → List (Change Number)
    during [] = []
    during (r ∷ rows) = env.meanwhile r.id ++ during rows

    after_one-KeptBy :
        (r : QueueRow Text) (now : ℕ) (d : Database Number Text)
        → suc r.id ≤ d.next_id
        → KeptBy (r ∷ []) (env.meanwhile r.id) d (after_one r now d)
    unfolding keep
    after_one-KeptBy r now d below = record {
      new = a.new;
      queued = queued;
      fresh = a.fresh;
      grows = grows;
      told = a.told;
    }
      where
        a : Arrived json (env.meanwhile r.id) d (arrive json env (env.meanwhile r.id) now d)
        a = arrive-Arrived (env.meanwhile r.id) now d

        dropped :
            drop_id r.id (pending_rows d.offline_queue ++ a.new)
            ≡ drop_id r.id (pending_rows d.offline_queue) ++ a.new
        dropped =
            drop_id-append r.id (pending_rows d.offline_queue) a.new
            ∙ ap (λ q. drop_id r.id (pending_rows d.offline_queue) ++ q)
                (drop_id-fresh r.id d.next_id a.new below a.fresh)

        queued :
            pending_rows (after_one r now d).offline_queue
            ≡ keep (r ∷ []) (pending_rows d.offline_queue) ++ a.new
        queued = elim (Bool-cases (is_accepted json env r)) [
          | inl accepted ↦
              rw accepted (pending_rows-mark_rows now r.id _ ∙ ap (drop_id r.id) a.queued ∙ dropped)
          | inr rejected ↦ rw rejected a.queued
        ]

        grows : d.next_id ≤ (after_one r now d).next_id
        grows = ground (arith, a.grows)

    KeptBy-trans :
        {d d' d'' : Database Number Text} (r : QueueRow Text) (rows : List (QueueRow Text))
        (some_changes more : List (Change Number))
        → Below d.next_id rows
        → KeptBy (r ∷ []) some_changes d d'
        → KeptBy rows more d' d''
        → KeptBy (r ∷ rows) (some_changes ++ more) d d''
    unfolding keep
    KeptBy-trans {d} r rows some_changes more b first rest = record {
      new = first.new ++ rest.new;
      queued =
          rest.queued
          ∙ ap (λ q. keep rows q ++ rest.new) first.queued
          ∙ ap (λ q. q ++ rest.new) (keep-append d.next_id rows _ first.new b first.fresh)
          ∙ append_assoc _ first.new rest.new;
      fresh =
          Fresh-append d.next_id first.new rest.new first.fresh
            (Fresh-mono d.next_id _ rest.new first.grows rest.fresh);
      grows = omega (arith, first.grows, rest.grows);
      told = both_told json first.new rest.new some_changes more first.told rest.told;
    }

    Below-mono : (m n : ℕ) (rows : List (QueueRow Text)) → m ≤ n → Below m rows → Below n rows
    Below-mono m n [] h b = tt
    Below-mono m n (r ∷ rows) h (below, b) = (omega arith, Below-mono m n rows h b)

    -- The loop over operations whose ids are in use, if no statement fails.
    pub sync_each-KeptBy :
        (rows : List (QueueRow Text)) (c : Counts) (m : Manager Number Text)
        (d : Database Number Text)
        → m.session.db ≡ some d
        → ((n : ℕ) → env.world.fails n ≡ false)
        → Below d.next_id rows
        → (d' : Database Number Text) × ((sync_each json env rows (c, m)).1.session.db ≡ some d')
          × KeptBy rows (during rows) d d'
    unfolding sync_each keep
    sync_each-KeptBy [] c m d opened fine b = (
      d,
      opened,
      record { new = []; queued = rw append-nil; fresh = tt; grows = omega arith; told = refl },
    )
    sync_each-KeptBy (r ∷ rows) c m d opened fine (below, b) =
        let (c', m') = sync_one json env r (c, m) in
        let first = after_one-KeptBy r (env.world.stamp m.session.moment) d below in
        let (d', opened', rest) =
          sync_each-KeptBy rows c' m' _ (sync_one-db r c m d opened (fine m.session.moment)) fine
            (Below-mono d.next_id _ rows first.grows b) in
        (d', opened', KeptBy-trans r rows (env.meanwhile r.id) (during rows) b first rest)
