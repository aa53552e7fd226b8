-- ===== src/App/Storage/Queue.antt =====
-- LocalStorageRepository: the four changes of the offline cart, each of two statements, and what
-- is left of each when a statement fails.
use pipeline_azure.Prelude.{ℕ, ◌+◌, ◌≡◌, none, some, [], arith, Result, ok, throw, if◌then◌else◌}
use pipeline_azure.Json.{Json}
use pipeline_azure.App.Cart.{CartItem}
use pipeline_azure.App.Database.{
  add, update, delete, delete_all, cart_item, Database, World, Session, M, Failure, not_initialized,
  statement_failed, execute,
}
use pipeline_azure.App.Storage.{
  Payload, item, quantity, empty, quantity_or_one, put_cart_row, set_row_quantity, delete_cart_row,
  insert_queue_row, add_cart_item, update_cart_item, remove_cart_item, clear_cart_items,
}

pub data Change (Number : Type 0) : Type 0 where
  adds : CartItem Number → Change Number
  updates : (id q : ℕ) → Change Number
  removes : ℕ → Change Number
  clears : Change Number

module _ {Number Text : Type 0} (json : Json Text (Payload Number)) where
  -- The cart statement and the queue statement of a change, at the times that they run.
  unfoldable pub on_cart : Change Number → ℕ → Database Number Text → Database Number Text
  on_cart (adds i) now d = record d {
    cart_items =
        put_cart_row
          (record {
            id = i.id;
            product_id = i.id;
            quantity = quantity_or_one i.quantity;
            created_at = now;
            updated_at = now;
          })
          d.cart_items;
  }
  on_cart (updates id q) now d = record d { cart_items = set_row_quantity now q id d.cart_items }
  on_cart (removes id) now d = record d { cart_items = delete_cart_row id d.cart_items }
  on_cart clears now d = record d { cart_items = [] }

  unfoldable pub on_queue : Change Number → ℕ → Database Number Text → Database Number Text
  on_queue (adds i) = insert_queue_row add cart_item i.id (json.stringify (item i))
  on_queue (updates id q) = insert_queue_row update cart_item id (json.stringify (quantity q))
  on_queue (removes id) = insert_queue_row delete cart_item id (json.stringify empty)
  on_queue clears = insert_queue_row delete_all cart_item 0 (json.stringify empty)

  module _ (w : World) where
    unfoldable pub perform : Change Number → M Number Text (Unit {0})
    unfolding add_cart_item update_cart_item remove_cart_item clear_cart_items
    perform (adds i) = add_cart_item json w i
    perform (updates id q) = update_cart_item json w id q
    perform (removes id) = remove_cart_item json w id
    perform clears = clear_cart_items json w

    -- What a call leaves behind, by the statement that fails first: nothing is changed, or the
    -- cart is changed and the change is not queued, or both are done.
    unfoldable pub outcome :
        Change Number → Session Number Text → Result Failure (Unit {0}) × Session Number Text
    outcome c s = elim s.db [
      | none ↦ (throw not_initialized, s)
      | some d ↦
          if w.fails s.moment
          then (throw statement_failed, record s { moment = s.moment + 1 })
          else if w.fails (s.moment + 1)
          then (
            throw statement_failed,
            record { db = some (on_cart c (w.stamp s.moment) d); moment = s.moment + 1 + 1 },
          )
          else (
            ok tt,
            record {
              db = some (on_queue c (w.stamp (s.moment + 1)) (on_cart c (w.stamp s.moment) d));
              moment = s.moment + 1 + 1;
            },
          )
    ]

    -- A change of the offline cart throws without a database; throws and changes no table if its
    -- cart statement fails; throws and leaves the cart changed but nothing queued if its queue
    -- statement fails; and else changes the cart and queues the change.
    pub perform-eq-outcome :
        (c : Change Number) (s : Session Number Text) → perform c s ≡ outcome c s
    unfolding perform outcome on_cart on_queue execute
    perform-eq-outcome (adds i) s = ground arith
    perform-eq-outcome (updates id q) s = ground arith
    perform-eq-outcome (removes id) s = ground arith
    perform-eq-outcome clears s = ground arith
