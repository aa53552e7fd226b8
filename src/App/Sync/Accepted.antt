-- ===== src/App/Sync/Accepted.antt =====
-- SyncManager: which request an operation asks for, and which operations the server accepts, as the
-- API of the carts has it and apart from the code.
use pipeline_azure.Prelude.{◌≡◌, refl, ap, ◌∙◌, Bool, false, Option, none, some, List, [], ◌∷◌, ℕ}
use pipeline_azure.Json.{Json}
use pipeline_azure.App.Database.{
  OperationType, add, update, delete, delete_all, other_type, EntityType, product, cart_item,
  QueueRow,
}
use pipeline_azure.App.Storage.{Payload}
use pipeline_azure.App.Sync.{
  Environment, Request, post_cart, put_cart, delete_cart, delete_all_carts, request_of, optional,
  request, sync_operation,
}

module _ {Number : Type 0} where
  -- An added item is posted, a changed one put, a removed one deleted, and a cleared cart deleted as a
  -- whole; no other operation, and none on another entity, has a request.
  abbrev pub asked : OperationType → EntityType → ℕ → Payload Number → List (Request Number)
  asked operation product id p = []
  asked add cart_item id p = post_cart p ∷ []
  asked update cart_item id p = put_cart id p ∷ []
  asked delete cart_item id p = delete_cart id ∷ []
  asked delete_all cart_item id p = delete_all_carts ∷ []
  asked (other_type s) cart_item id p = []

  asked-request_of :
      (o : OperationType) (e : EntityType) (id : ℕ) (p : Payload Number)
      → optional (request_of o e id p) ≡ asked o e id p
  asked-request_of add product id p = refl
  asked-request_of update product id p = refl
  asked-request_of delete product id p = refl
  asked-request_of delete_all product id p = refl
  asked-request_of (other_type s) product id p = refl
  asked-request_of add cart_item id p = refl
  asked-request_of update cart_item id p = refl
  asked-request_of delete cart_item id p = refl
  asked-request_of delete_all cart_item id p = refl
  asked-request_of (other_type s) cart_item id p = refl

module _ {Number Text : Type 0} (json : Json Text (Payload Number))
    (env : Environment Number Text) where
  abbrev asked_with : QueueRow Text → Option (Payload Number) → List (Request Number)
  asked_with r none = []
  asked_with r (some p) = asked r.operation_type r.entity_type r.entity_id p

  -- The request of a row of the queue, if its payload parses.
  abbrev pub asked_by : QueueRow Text → List (Request Number)
  asked_by r = asked_with r (json.parse r.payload)

  abbrev pub answer : ℕ → List (Request Number) → Bool
  answer id [] = false
  answer id (q ∷ more) = env.accepts id q

  -- The row has a request, and the server accepts it.
  abbrev pub is_accepted : QueueRow Text → Bool
  is_accepted r = answer r.id (asked_by r)

  optional-elim :
      (r : QueueRow Text) (o : Option (Payload Number))
      → optional {A = Request Number} (elim o [
        | none ↦ none
        | some p ↦ request_of r.operation_type r.entity_type r.entity_id p
      ])
        ≡ asked_with r o
  optional-elim r none = refl
  optional-elim r (some p) = asked-request_of r.operation_type r.entity_type r.entity_id p

  answer-optional :
      (id : ℕ) (o : Option (Request Number))
      → ◌≡◌ {A = Bool}
          (elim o [ none ↦ false | some q ↦ env.accepts id q ])
          (answer id (optional o))
  answer-optional id none = refl
  answer-optional id (some q) = refl

  pub optional-request : (r : QueueRow Text) → optional (request json env r) ≡ asked_by r
  unfolding request
  optional-request r = optional-elim r (json.parse r.payload)

  pub sync_operation-is_accepted : (r : QueueRow Text) → sync_operation json env r ≡ is_accepted r
  unfolding sync_operation request
  sync_operation-is_accepted r =
      answer-optional r.id (request json env r) ∙ ap (answer r.id) (optional-request r)
