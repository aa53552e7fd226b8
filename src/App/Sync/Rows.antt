-- ===== src/App/Sync/Rows.antt =====
-- Rows of the offline queue: those of one id, those below an id, and those still pending.
use pipeline_azure.Prelude.{
  ℕ, suc, ◌≤◌, ◌≡◌, refl, not, List, [], ◌∷◌, ◌++◌, arith, nat_eq, ◌==◌, filter_by,
}
use pipeline_azure.App.Database.{QueueRow}
use pipeline_azure.App.Storage.{mark_rows, pending_rows}

module _ {Text : Type 0} where
  -- The rows without those of one id.
  abbrev pub drop_id : ℕ → List (QueueRow Text) → List (QueueRow Text)
  drop_id id = filter_by λ r. not (r.id == id)

  -- Every row's id is below `n`; and none is.
  abbrev pub Below : ℕ → List (QueueRow Text) → Type 0
  Below n [] = Unit {0}
  Below n (r ∷ rows) = (suc r.id ≤ n) × Below n rows

  abbrev pub Fresh : ℕ → List (QueueRow Text) → Type 0
  Fresh n [] = Unit {0}
  Fresh n (r ∷ rows) = (n ≤ r.id) × Fresh n rows

  pub pending_rows-append :
      (xs ys : List (QueueRow Text)) → pending_rows (xs ++ ys) ≡ pending_rows xs ++ pending_rows ys
  unfolding pending_rows
  pending_rows-append [] ys = refl
  pending_rows-append (r ∷ xs) ys = ground (arith, pending_rows-append xs ys)

  pub pending_rows-mark_rows :
      (now id : ℕ) (rows : List (QueueRow Text))
      → pending_rows (mark_rows now id rows) ≡ drop_id id (pending_rows rows)
  unfolding pending_rows mark_rows
  pending_rows-mark_rows now id [] = refl
  pending_rows-mark_rows now id (r ∷ rows) = ground (arith, pending_rows-mark_rows now id rows)

  pub drop_id-append :
      (id : ℕ) (xs ys : List (QueueRow Text))
      → drop_id id (xs ++ ys) ≡ drop_id id xs ++ drop_id id ys
  drop_id-append id [] ys = refl
  drop_id-append id (r ∷ xs) ys = ground (arith, drop_id-append id xs ys)

  pub drop_id-fresh :
      (id n : ℕ) (rows : List (QueueRow Text)) → suc id ≤ n → Fresh n rows → drop_id id rows ≡ rows
  drop_id-fresh id n [] h f = refl
  drop_id-fresh id n (r ∷ rows) h (new, f) = ground (arith, drop_id-fresh id n rows h f)

  pub Fresh-append :
      (n : ℕ) (xs ys : List (QueueRow Text)) → Fresh n xs → Fresh n ys → Fresh n (xs ++ ys)
  Fresh-append n [] ys f g = g
  Fresh-append n (r ∷ xs) ys (new, f) g = (new, Fresh-append n xs ys f g)

  pub Fresh-mono : (m n : ℕ) (rows : List (QueueRow Text)) → m ≤ n → Fresh n rows → Fresh m rows
  Fresh-mono m n [] h f = tt
  Fresh-mono m n (r ∷ rows) h (new, f) = (omega arith, Fresh-mono m n rows h f)
