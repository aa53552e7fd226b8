-- ===== src/App/Storage/Log.antt =====
-- LocalStorageRepository: the offline queue is a log of the offline cart.
use mathlib.Core.Option
use mathlib.Core.Path.{fun_ext, subst}
use pipeline_azure.Prelude.{
  All, ◌<◌, ℕ, ◌+◌, ◌≡◌, ◌≢◌, refl, ap, ◌∙◌, sym, true, false, Option, none, some, List, [], ◌∷◌,
  ◌++◌, arith, nat_eq, ◌==◌, if◌then◌else◌,
}
use pipeline_azure.Json.{Json}
use pipeline_azure.App.Cart.{CartItem}
use pipeline_azure.App.Database.{
  OperationType, add, update, delete, delete_all, CartRow, QueueRow, Database, World, Session,
}
use pipeline_azure.App.Storage.{
  Payload, item, quantity, empty, quantity_or_one, put_cart_row, set_row_quantity, delete_cart_row,
  insert_queue_row,
}
use pipeline_azure.App.Storage.Queue.{
  Change, adds, updates, removes, clears, on_cart, on_queue, perform, outcome, perform-eq-outcome,
}

-- The quantity of a product in the cart, if it is there.
abbrev pub Quantities : Type 0
Quantities = ℕ → Option ℕ

unfoldable pub row_quantity : List CartRow → ℕ → Option ℕ
row_quantity [] j = none
row_quantity (r ∷ rows) j = if r.id == j then some r.quantity else row_quantity rows j

row_quantity-nil : (j : ℕ) → row_quantity [] j ≡ none
unfolding row_quantity
row_quantity-nil j = refl

row_quantity-delete_cart_row :
    (id : ℕ) (rows : List CartRow) (j : ℕ)
    → row_quantity (delete_cart_row id rows) j ≡ (if id == j then none else row_quantity rows j)
unfolding row_quantity delete_cart_row
row_quantity-delete_cart_row id [] j = ground arith
row_quantity-delete_cart_row id (r ∷ rows) j =
    ground (arith, row_quantity-delete_cart_row id rows j)

row_quantity-set_row_quantity :
    (now q id : ℕ) (rows : List CartRow) (j : ℕ)
    → row_quantity (set_row_quantity now q id rows) j
      ≡ (if id == j then Option.map (λ _. q) (row_quantity rows j) else row_quantity rows j)
unfolding row_quantity set_row_quantity
row_quantity-set_row_quantity now q id [] j = ground arith
row_quantity-set_row_quantity now q id (r ∷ rows) j =
    ground (arith, row_quantity-set_row_quantity now q id rows j)

row_quantity-put_cart_row :
    (r : CartRow) (rows : List CartRow) (j : ℕ)
    → row_quantity (put_cart_row r rows) j
      ≡ (if r.id == j then some r.quantity else row_quantity rows j)
unfolding row_quantity put_cart_row
row_quantity-put_cart_row r [] j = refl
row_quantity-put_cart_row r (o ∷ rows) j = ground (arith, row_quantity-put_cart_row r rows j)

module _ {Number Text : Type 0} (json : Json Text (Payload Number)) where
  -- What a queued operation means for the quantities, as it is sent: the quantity of an added item is
  -- the one in its payload. A payload that does not fit changes nothing.
  unfoldable pub replay_payload :
      OperationType → ℕ → Option (Payload Number) → Quantities → Quantities
  replay_payload add id (some (item i)) m j = if i.id == j then some i.quantity else m j
  replay_payload update id (some (quantity q)) m j =
      if id == j then Option.map (λ _. q) (m j) else m j
  replay_payload delete id (some empty) m j = if id == j then none else m j
  replay_payload delete_all id (some empty) m j = none
  replay_payload _ id _ m j = m j

  unfoldable pub replay : Quantities → List (QueueRow Text) → Quantities
  replay m [] = m
  replay m (r ∷ rows) =
      replay (replay_payload r.operation_type r.entity_id (json.parse r.payload) m) rows

  replay-append :
      (m : Quantities) (rows : List (QueueRow Text)) (r : QueueRow Text)
      → replay m (rows ++ r ∷ [])
        ≡ replay_payload r.operation_type r.entity_id (json.parse r.payload) (replay m rows)
  unfolding replay
  replay-append m [] r = refl
  replay-append m (o ∷ rows) r =
      replay-append (replay_payload o.operation_type o.entity_id (json.parse o.payload) m) rows r

  replay-queued :
      (m q : Quantities) (rows : List (QueueRow Text)) (r : QueueRow Text) (p : Payload Number)
      → q ≡ replay m rows
      → json.parse r.payload ≡ some p
      → replay m (rows ++ r ∷ []) ≡ replay_payload r.operation_type r.entity_id (some p) q
  replay-queued m q rows r p e parsed = rw (replay-append m rows r, parsed, ← e)

  -- The cart is what the queue makes of the cart `m` that was there when the queue was empty.
  unfoldable pub IsLogged : Quantities → Database Number Text → Type 0
  IsLogged m d = row_quantity d.cart_items ≡ replay m d.offline_queue

  -- An item is added with a quantity above 0.
  abbrev pub HasQuantity : Change Number → Type 0
  HasQuantity (adds i) = 0 < i.quantity
  HasQuantity _ = Unit {0}

  quantity_or_one-eq : (q : ℕ) → 0 < q → quantity_or_one q ≡ q
  quantity_or_one-eq q h = ground (arith, h)

  added-replayed :
      (m : Quantities) (i : CartItem Number) (j : ℕ)
      → 0 < i.quantity
      → (if i.id == j then some (quantity_or_one i.quantity) else m j)
        ≡ replay_payload add i.id (some (item i)) m j
  unfolding replay_payload
  added-replayed m i j h = rw (quantity_or_one-eq i.quantity h) refl

  change-IsLogged :
      (m : Quantities) (c : Change Number) (first second : ℕ) (d : Database Number Text)
      → HasQuantity c
      → IsLogged m d
      → IsLogged m (on_queue json c second (on_cart json c first d))
  unfolding IsLogged on_queue on_cart insert_queue_row replay_payload
  change-IsLogged m (adds i) first second d positive h =
      fun_ext (λ j.
        row_quantity-put_cart_row _ d.cart_items j
        ∙ added-replayed (row_quantity d.cart_items) i j positive)
      ∙ sym (replay-queued m _ d.offline_queue _ (item i) h (json.parse-stringify (item i)))
  change-IsLogged m (updates id q) first second d positive h =
      fun_ext (λ j. row_quantity-set_row_quantity first q id d.cart_items j)
      ∙ sym (replay-queued m _ d.offline_queue _ (quantity q) h (json.parse-stringify (quantity q)))
  change-IsLogged m (removes id) first second d positive h =
      fun_ext (λ j. row_quantity-delete_cart_row id d.cart_items j)
      ∙ sym (replay-queued m _ d.offline_queue _ empty h (json.parse-stringify empty))
  change-IsLogged m clears first second d positive h =
      fun_ext row_quantity-nil
      ∙ sym (replay-queued m _ d.offline_queue _ empty h (json.parse-stringify empty))

  module _ (w : World) where
    unfoldable pub perform_all : List (Change Number) → Session Number Text → Session Number Text
    perform_all [] s = s
    perform_all (c ∷ changes) s = perform_all changes (perform json w c s).1

    -- An open database whose queue is a log of its cart.
    abbrev pub Holds : Quantities → Session Number Text → Type 0
    Holds m s = (d : Database Number Text) × (s.db ≡ some d) × IsLogged m d

    perform-Holds :
        (m : Quantities) (c : Change Number) (s : Session Number Text)
        → ((n : ℕ) → w.fails n ≡ false)
        → HasQuantity c
        → Holds m s
        → Holds m (perform json w c s).1
    unfolding outcome
    perform-Holds m c s fine positive (d, opened, logged) =
        rw (perform-eq-outcome json w c s, outcome, opened, fine s.moment, fine (s.moment + 1))
          (
            _,
            refl,
            change-IsLogged m c (w.stamp s.moment) (w.stamp (s.moment + 1)) d positive logged,
          )

    run-Holds :
        (m : Quantities) (changes : List (Change Number)) (s : Session Number Text)
        → ((n : ℕ) → w.fails n ≡ false)
        → All HasQuantity changes
        → Holds m s
        → Holds m (perform_all changes s)
    unfolding perform_all
    run-Holds m [] s fine positive h = h
    run-Holds m (c ∷ changes) s fine (first, positive) h =
        run-Holds m changes (perform json w c s).1 fine positive (perform-Holds m c s fine first h)

    -- An open database whose cart has one piece of a product, while its queue says none.
    abbrev pub Differs : Quantities → ℕ → Session Number Text → Type 0
    Differs m id s =
        (d : Database Number Text) × (s.db ≡ some d)
        × (row_quantity d.cart_items id ≡ some 1)
        × (replay m d.offline_queue id ≡ some 0)

    own_quantity :
        (r : CartRow) (rows : List CartRow)
        → row_quantity (put_cart_row r rows) r.id ≡ some r.quantity
    own_quantity r rows = row_quantity-put_cart_row r rows r.id ∙ ground arith

    replayed_zero :
        (m : Quantities) (i : CartItem Number) (rows : List (QueueRow Text)) (r : QueueRow Text)
        → r.operation_type ≡ add
        → r.entity_id ≡ i.id
        → json.parse r.payload ≡ some (item i)
        → i.quantity ≡ 0
        → replay m (rows ++ r ∷ []) i.id ≡ some 0
    unfolding replay_payload
    replayed_zero m i rows r o e p zero_quantity =
        ap (λ f. f i.id) (replay-append m rows r) ∙ rw (o, e, p) (ground (arith, zero_quantity))

    perform-Differs :
        (m : Quantities) (i : CartItem Number) (s : Session Number Text) (d : Database Number Text)
        → ((n : ℕ) → w.fails n ≡ false)
        → i.quantity ≡ 0
        → s.db ≡ some d
        → Differs m i.id (perform json w (adds i) s).1
    unfolding outcome on_cart on_queue insert_queue_row
    perform-Differs m i s d fine zero_quantity opened =
        rw
          (
            perform-eq-outcome json w (adds i) s,
            outcome,
            opened,
            fine s.moment,
            fine (s.moment + 1),
          )
          (
            _,
            refl,
            own_quantity _ d.cart_items ∙ ap (λ q. some (quantity_or_one q)) zero_quantity,
            replayed_zero m i d.offline_queue _ refl refl (json.parse-stringify (item i))
                zero_quantity,
          )

    -- While no statement fails: after any sequence of changes that add no item with the quantity 0, the
    -- offline cart has the quantities that its queue, replayed in order as it is sent, makes of the
    -- quantities at the start. An item that is then added with the quantity 0 has the quantity 1 in the
    -- cart, and 0 by the queue.
    pub perform_all-Holds :
        (m : Quantities) (changes : List (Change Number)) (i : CartItem Number)
        (s : Session Number Text)
        → ((n : ℕ) → w.fails n ≡ false)
        → All HasQuantity changes
        → i.quantity ≡ 0
        → Holds m s
        → Holds m (perform_all changes s)
          × Differs m i.id (perform json w (adds i) (perform_all changes s)).1
    perform_all-Holds m changes i s fine positive zero_quantity h =
        let (d, opened, logged) = run-Holds m changes s fine positive h in
        (
          (d, opened, logged),
          perform-Differs m i (perform_all changes s) d fine zero_quantity opened,
        )

    -- The two statements are no transaction: when the cart statement of an added item runs and its
    -- queue statement fails, the queue is no log of the cart any more, if the quantity is new.
    perform-not-Holds :
        (m : Quantities) (i : CartItem Number) (s : Session Number Text) (d : Database Number Text)
        → s.db ≡ some d
        → IsLogged m d
        → w.fails s.moment ≡ false
        → w.fails (s.moment + 1) ≡ true
        → row_quantity d.cart_items i.id ≢ some (quantity_or_one i.quantity)
        → ¬ Holds m (perform json w (adds i) s).1
    unfolding outcome on_cart IsLogged
    perform-not-Holds m i s d opened logged runs fails new (d', reopened, logged') = new (
        ap (λ f. f i.id) logged
        ∙ sym (ap (λ f. f i.id) (subst (IsLogged m) d'-eq logged'))
        ∙ row_quantity-put_cart_row _ d.cart_items i.id
        ∙ ground arith)
      where
        left : (perform json w (adds i) s).1.db ≡ some (on_cart json (adds i) (w.stamp s.moment) d)
        left = rw (perform-eq-outcome json w (adds i) s, outcome, opened, runs, fails) refl

        d'-eq : d' ≡ on_cart json (adds i) (w.stamp s.moment) d
        d'-eq = cc (left, reopened)
