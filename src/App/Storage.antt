-- ===== src/App/Storage.antt =====
-- src/Presentation/App/src/infrastructure/persistence/LocalStorageRepository.ts
-- Each SQL statement is a function on the tables; a row is found by its primary key.
pub mod Queue
pub mod Log
mod Tests
use pipeline_azure.Prelude.{
  ℕ, ◌+◌, ◌≡◌, Bool, true, false, not, ◌&&◌, Option, none, some, String, List, [], ◌∷◌, ◌++◌, map,
  nat_eq, ◌==◌, filter_by, find_by, if◌then◌else◌,
}
use pipeline_azure.Json.{Json}
use pipeline_azure.App.Cart.{CartItem}
use pipeline_azure.App.Database.{
  OperationType, add, update, delete, delete_all, EntityType, cart_item, Status, pending, synced,
  ProductRow, CartRow, QueueRow, Database, World, Session, M, ◌>>=◌, ◌>>◌, pure, recover, execute,
  select,
}

-- The payloads that are put in the queue: a whole item, `{ quantity }`, and `{}`.
pub data Payload (Number : Type 0) : Type 0 where
  item : CartItem Number → Payload Number
  quantity : ℕ → Payload Number
  empty : Payload Number

-- `cartItem.quantity || 1`
abbrev pub quantity_or_one : ℕ → ℕ
quantity_or_one q = if q == 0 then 1 else q

-- INSERT OR REPLACE INTO cart_items
unfoldable pub put_cart_row : CartRow → List CartRow → List CartRow
put_cart_row r rows = filter_by (λ o. not (o.id == r.id)) rows ++ r ∷ []

-- UPDATE cart_items SET quantity = ?, updated_at = CURRENT_TIMESTAMP WHERE id = ?
unfoldable pub set_row_quantity : ℕ → ℕ → ℕ → List CartRow → List CartRow
set_row_quantity now q id =
    map λ r. if r.id == id then record r { quantity = q; updated_at = now } else r

-- DELETE FROM cart_items WHERE id = ?
unfoldable pub delete_cart_row : ℕ → List CartRow → List CartRow
delete_cart_row id = filter_by λ r. not (r.id == id)

abbrev pub is_pending : Status → Bool
is_pending pending = true
is_pending synced = false

-- `JOIN products p ON c.product_id = p.id`
unfoldable pub join_rows :
    {Number : Type 0} → List CartRow → List (ProductRow Number) → List (CartRow × ProductRow Number)
join_rows [] products = []
join_rows (c ∷ rows) products =
    map (λ p. (c, p)) (filter_by (λ p. p.id == c.product_id) products) ++ join_rows rows products

module _ {Text : Type 0} where
  -- UPDATE offline_queue SET status = 'synced', synced_at = CURRENT_TIMESTAMP WHERE id = ?
  unfoldable pub mark_rows : ℕ → ℕ → List (QueueRow Text) → List (QueueRow Text)
  mark_rows now id [] = []
  mark_rows now id (r ∷ rows) =
      (if r.id == id then record r { status = synced; synced_at = some now } else r)
      ∷ mark_rows now id rows

  -- … WHERE status = 'pending'
  unfoldable pub pending_rows : List (QueueRow Text) → List (QueueRow Text)
  pending_rows = filter_by λ r. is_pending r.status

module _ {Number Text : Type 0} where
  -- INSERT INTO offline_queue (…) VALUES (?, ?, ?, ?, 'pending')
  unfoldable pub insert_queue_row :
      OperationType → EntityType → ℕ → Text → ℕ → Database Number Text → Database Number Text
  insert_queue_row type entity entity_id payload now d = record d {
    offline_queue =
        d.offline_queue
        ++ record {
          id = d.next_id;
          operation_type = type;
          entity_type = entity;
          entity_id = entity_id;
          payload = payload;
          status = pending;
          retry_count = 0;
          created_at = now;
          synced_at = none;
        }
          ∷ [];
    next_id = d.next_id + 1;
  }

  module _ (json : Json Text (Payload Number)) (w : World) where
    unfoldable pub add_to_queue :
        OperationType → EntityType → ℕ → Payload Number → M Number Text (Unit {0})
    add_to_queue action entity entity_id payload =
        execute w (insert_queue_row action entity entity_id (json.stringify payload))

    unfoldable pub add_cart_item : CartItem Number → M Number Text (Unit {0})
    unfolding add_to_queue
    add_cart_item i = do
      execute w λ now d. record d {
        cart_items =
            put_cart_row
              (record {
                id = i.id;
                product_id = i.id;
                quantity = quantity_or_one i.quantity;
                created_at = now;
                updated_at = now;
              })
              d.cart_items;
      }
      add_to_queue add cart_item i.id (item i)

    unfoldable pub update_cart_item : ℕ → ℕ → M Number Text (Unit {0})
    unfolding add_to_queue
    update_cart_item id q = do
      execute w λ now d. record d { cart_items = set_row_quantity now q id d.cart_items }
      add_to_queue update cart_item id (quantity q)

    unfoldable pub remove_cart_item : ℕ → M Number Text (Unit {0})
    unfolding add_to_queue
    remove_cart_item id = do
      execute w λ _ d. record d { cart_items = delete_cart_row id d.cart_items }
      add_to_queue delete cart_item id empty

    unfoldable pub clear_cart_items : M Number Text (Unit {0})
    unfolding add_to_queue
    clear_cart_items = do
      execute w λ _ d. record d { cart_items = [] }
      add_to_queue delete_all cart_item 0 empty

  module _ (w : World) where
    -- `order` is ORDER BY created_at ASC, which leaves the order of equal times open.
    unfoldable pub get_queue :
        (List (QueueRow Text) → List (QueueRow Text)) → M Number Text (List (QueueRow Text))
    get_queue order = recover [] (select w λ d. order (pending_rows d.offline_queue))

    unfoldable pub mark_operation_as_synced : ℕ → M Number Text (Unit {0})
    mark_operation_as_synced id =
        execute w λ now d. record d { offline_queue = mark_rows now id d.offline_queue }

    -- `Number(String(id))` is the id again.
    unfoldable pub remove_from_queue : ℕ → M Number Text (Unit {0})
    unfolding mark_operation_as_synced
    remove_from_queue id = mark_operation_as_synced id

    -- DELETE FROM offline_queue WHERE status = 'synced'
    unfoldable pub clear_queue : M Number Text (Unit {0})
    clear_queue = execute w λ _ d. record d { offline_queue = pending_rows d.offline_queue }

    -- INSERT OR REPLACE INTO products
    save_product : ProductRow Number → M Number Text (Unit {0})
    save_product p = execute w λ now d. record d {
      products =
          filter_by (λ o. not (o.id == p.id)) d.products
          ++ record p { created_at = now; updated_at = now; synced_at = some now } ∷ [];
    }

    unfoldable pub save_products : List (ProductRow Number) → M Number Text (Unit {0})
    unfolding save_product
    save_products [] = pure tt
    save_products (p ∷ products) = do save_product p; save_products products

    unfoldable pub get_product : ℕ → M Number Text (Option (ProductRow Number))
    get_product id = recover none (select w λ d. find_by (λ p. p.id == id) d.products)

    -- Every column of the products is read; `order` is ORDER BY created_at DESC.
    unfoldable get_products :
        (List (ProductRow Number) → List (ProductRow Number))
        → M Number Text (List (ProductRow Number))
    get_products order = recover [] (select w λ d. order d.products)

    unfoldable get_cart_items :
        (List (CartRow × ProductRow Number) → List (CartRow × ProductRow Number))
        → M Number Text (List (CartRow × ProductRow Number))
    unfolding join_rows
    get_cart_items order = recover [] (select w λ d. order (join_rows d.cart_items d.products))
