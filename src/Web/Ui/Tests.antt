-- ===== src/Web/Ui/Tests.antt =====
-- uiSlice on a concrete page.
use pipeline_azure.Prelude.{ℕ, ◌≡◌, refl, none, some, List, [], ◌∷◌}
use pipeline_azure.Web.Ui.{
  Page, Action, set_theme, toggle_theme, set_language, open_modal, close_modal, dark, tr,
  initial_state, run,
}
use pipeline_azure.Web.Ui.Modals.{modal_of, changes, modal_of-run}

abbrev page : Page ℕ
page = record { state = initial_state []; storage = []; data_theme = none }

abbrev actions : List (Action ℕ)
actions =
    open_modal "cart" (some 3)
    ∷ set_theme dark
    ∷ toggle_theme
    ∷ toggle_theme
    ∷ set_language tr
    ∷ open_modal "cart" none
    ∷ close_modal "cart"
    ∷ []

modal_of-run_example : modal_of (run page actions) ≡ changes (modal_of page) actions
modal_of-run_example = modal_of-run page actions

dark_again : (run page actions).state.theme ≡ "dark"
unfolding run initial_state
dark_again = refl
