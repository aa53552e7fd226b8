-- ===== src/Admin/Facets/Tests.antt =====
-- The faceted filter on concrete options.
use pipeline_azure.Prelude.{ℕ, ◌≡◌, refl, none, some, List, [], ◌∷◌, nat_eq, includes, remove}
use pipeline_azure.Admin.Facets.{
  Event, selects, clears, add, add_all, selected_values, on_select, clear_filters, run,
}
use pipeline_azure.Admin.Facets.Selected.{choose, is_selected, is_selected-run}

abbrev choices : List (Event ℕ)
choices = selects 3 ∷ selects 5 ∷ selects 3 ∷ selects 7 ∷ []

-- A value that stands twice in the address counts once.
run_example : run choices (some (5 ∷ 2 ∷ 5 ∷ [])) ≡ some (2 ∷ 7 ∷ [])
unfolding run on_select selected_values add_all add includes remove
run_example = refl

-- The last choice gone, there is no filter at all.
none_example : run {A = ℕ} (selects 2 ∷ []) (some (2 ∷ [])) ≡ none
unfolding run on_select selected_values add_all add includes remove
none_example = refl

clear_example : run {A = ℕ} (selects 2 ∷ clears ∷ []) (some (5 ∷ [])) ≡ none
unfolding run on_select clear_filters selected_values add_all add includes remove
clear_example = refl

is_selected-run_example :
    is_selected (run choices (some (5 ∷ 2 ∷ []))) 7
    ≡ choose choices (is_selected (some (5 ∷ 2 ∷ []))) 7
is_selected-run_example = is_selected-run choices (some (5 ∷ 2 ∷ [])) 7
