-- ===== src/Admin/Facets.antt =====
-- src/Presentation/Admin/src/components/data-table/faceted-filter.tsx
-- The values that a column is filtered by, which the table keeps. A `Set` is a list without
-- repetition in the order of insertion.
pub mod Selected
mod Tests
use pipeline_azure.Prelude.{
  Bool, true, false, Option, none, some, List, [], ◌∷◌, ◌++◌, Eq, includes, remove, if◌then◌else◌,
}

module _ {A : Type 0} ⦃e : Eq A⦄ where
  -- `set.add(value)`
  unfoldable pub add : A → List A → List A
  unfolding includes
  add a set = if includes set a then set else set ++ a ∷ []

  unfoldable pub add_all : List A → List A → List A
  unfolding add
  add_all [] set = set
  add_all (a ∷ values) set = add_all values (add a set)

  -- `new Set(column.getFilterValue())`
  unfoldable pub selected_values : Option (List A) → List A
  unfolding add_all
  selected_values none = []
  selected_values (some values) = add_all values []

  -- `filterValues.length ? filterValues : undefined`
  abbrev pub filter_of : List A → Option (List A)
  filter_of [] = none
  filter_of (a ∷ values) = some (a ∷ values)

  -- `onSelect` of an option.
  unfoldable pub on_select : A → Option (List A) → Option (List A)
  unfolding selected_values add includes remove
  on_select a filter =
      let selected = selected_values filter in
      filter_of (if includes selected a then remove a selected else add a selected)

  -- "Clear filters", a button that stands only beside selected values.
  abbrev pub clear_unless_empty : List A → Option (List A) → Option (List A)
  clear_unless_empty [] filter = filter
  clear_unless_empty (a ∷ selected) filter = none

  unfoldable pub clear_filters : Option (List A) → Option (List A)
  unfolding selected_values
  clear_filters filter = clear_unless_empty (selected_values filter) filter

pub data Event (A : Type 0) : Type 0 where
  selects : A → Event A
  clears : Event A

module _ {A : Type 0} ⦃e : Eq A⦄ where
  unfoldable pub run : List (Event A) → Option (List A) → Option (List A)
  unfolding on_select clear_filters
  run [] filter = filter
  run (selects a ∷ events) filter = run events (on_select a filter)
  run (clears ∷ events) filter = run events (clear_filters filter)
