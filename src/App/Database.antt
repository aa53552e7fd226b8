-- ===== src/App/Database.antt =====
-- src/Presentation/App/src/infrastructure/persistence/SQLiteRepository.ts
-- The tables that it creates, and its connection. SQLite itself is not in the repository: whether
-- a statement runs, and the time that it writes, are a `World`. Foreign keys are not enforced, as
-- SQLite leaves them off unless a connection turns them on.
use pipeline_azure.Prelude.{
  ℕ, ◌+◌, Bool, Option, none, some, String, List, [], Result, ok, throw, if◌then◌else◌,
}

pub data OperationType : Type 0 where
  add update delete delete_all : OperationType
  other_type : String → OperationType

pub data EntityType : Type 0 where
  product cart_item : EntityType

pub data Status : Type 0 where
  pending synced : Status

pub record ProductRow (Number : Type 0) : Type 0 where
  pub id : ℕ
  pub title : String
  pub price : Number
  pub description : String
  pub category : String
  pub image : String
  pub rating_rate : Number
  pub rating_count : ℕ
  pub synced_at : Option ℕ
  pub created_at : ℕ
  pub updated_at : ℕ

pub record CartRow : Type 0 where
  pub id : ℕ
  pub product_id : ℕ
  pub quantity : ℕ
  pub created_at : ℕ
  pub updated_at : ℕ

pub record QueueRow (Text : Type 0) : Type 0 where
  pub id : ℕ
  pub operation_type : OperationType
  pub entity_type : EntityType
  pub entity_id : ℕ
  pub payload : Text
  pub status : Status
  pub retry_count : ℕ
  pub created_at : ℕ
  pub synced_at : Option ℕ

-- `next_id` is the counter of AUTOINCREMENT.
pub record Database (Number Text : Type 0) : Type 0 where
  pub products : List (ProductRow Number)
  pub cart_items : List CartRow
  pub offline_queue : List (QueueRow Text)
  pub next_id : ℕ

-- What the environment decides at each moment: whether a statement fails, and the time.
pub record World : Type 0 where
  pub fails : ℕ → Bool
  pub stamp : ℕ → ℕ

-- The repository's `db`, and the moment: statements run one after the other.
pub record Session (Number Text : Type 0) : Type 0 where
  pub db : Option (Database Number Text)
  pub moment : ℕ

pub data Failure : Type 0 where
  not_initialized statement_failed : Failure

abbrev pub M : Type 0 → Type 0 → Type 0 → Type 0
M Number Text A = Session Number Text → Result Failure A × Session Number Text

module _ {Number Text : Type 0} where
  infixl 5 ◌>>=◌ ◌>>◌
  abbrev pub ◌>>=◌ : {A B : Type 0} → M Number Text A → (A → M Number Text B) → M Number Text B
  ◌>>=◌ m f s = let (r, s') = m s in elim r [ ok a ↦ f a s' | throw e ↦ (throw e, s') ]

  abbrev pub ◌>>◌ : {B : Type 0} → M Number Text (Unit {0}) → M Number Text B → M Number Text B
  m >> k = m >>= λ _. k

  abbrev pub pure : {A : Type 0} → A → M Number Text A
  pure a s = (ok a, s)

  -- `try { return await m } catch { return a }`
  abbrev pub recover : {A : Type 0} → A → M Number Text A → M Number Text A
  recover a m s = let (r, s') = m s in elim r [ ok b ↦ (ok b, s') | throw _ ↦ (ok a, s') ]

  abbrev later : Session Number Text → Session Number Text
  later s = record s { moment = s.moment + 1 }

  module _ (w : World) where
    -- `getDb()`, then `runAsync` with a statement that changes the tables.
    unfoldable pub execute :
        (ℕ → Database Number Text → Database Number Text) → M Number Text (Unit {0})
    execute f s = elim s.db [
      | none ↦ (throw not_initialized, s)
      | some d ↦
          if w.fails s.moment
          then (throw statement_failed, later s)
          else (ok tt, record { db = some (f (w.stamp s.moment) d); moment = s.moment + 1 })
    ]

    -- `getDb()`, then `getAllAsync` or `getFirstAsync`.
    unfoldable pub select : {A : Type 0} → (Database Number Text → A) → M Number Text A
    select f s = elim s.db [
      | none ↦ (throw not_initialized, s)
      | some d ↦ if w.fails s.moment then (throw statement_failed, later s) else (ok (f d), later s)
    ]

    -- `openDatabaseAsync`; a table that is not there yet stands as an empty one.
    open_database : Database Number Text → M Number Text (Unit {0})
    open_database stored s =
        if w.fails s.moment
        then (throw statement_failed, later s)
        else (ok tt, record { db = some stored; moment = s.moment + 1 })

    -- `CREATE … IF NOT EXISTS`
    abbrev create : M Number Text (Unit {0})
    create = execute (λ _ d. d)

    -- `initialize()`: the database is kept although a later statement fails.
    unfoldable pub initialize : Database Number Text → M Number Text (Unit {0})
    unfolding open_database
    initialize stored = do open_database stored; create; create; create; create

    -- `clearAllData()`
    unfoldable pub clear_all_data : M Number Text (Unit {0})
    unfolding execute
    clear_all_data s = elim s.db [
      | none ↦ (ok tt, s)
      | some _ ↦ execute (λ _ d. record d { products = []; cart_items = []; offline_queue = [] }) s
    ]

    -- `close()`: `closeAsync` may throw, and the connection stays then.
    unfoldable pub close : M Number Text (Unit {0})
    close s = elim s.db [
      | none ↦ (ok tt, s)
      | some _ ↦
          if w.fails s.moment
          then (throw statement_failed, later s)
          else (ok tt, record { db = none; moment = s.moment + 1 })
    ]
