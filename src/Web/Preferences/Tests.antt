-- ===== src/Web/Preferences/Tests.antt =====
-- preferencesSlice on concrete preferences.
use pipeline_azure.Prelude.{◌≡◌, refl, true, Option, List, [], ◌∷◌}
use pipeline_azure.Json.{plain_json}
use pipeline_azure.Storage.{get_item, set_item}
use pipeline_azure.Web.Preferences.{
  load_preferences, initial_state, reduce, run, Page, PartialPreferences, Action, eur, set_currency,
  set_items_per_page, toggle_auto_save, reset_preferences, default_preferences,
}

abbrev page : Page (Option PartialPreferences)
page = record {
  state = record { preferences = default_preferences; is_initialized = true };
  storage = [];
}

abbrev actions : List Action
actions = set_currency eur ∷ reset_preferences ∷ set_items_per_page 24 ∷ toggle_auto_save ∷ []

-- A reload finds the preferences of the page.
reload_test :
    (run plain_json page actions).state
    ≡ initial_state plain_json (run plain_json page actions).storage
unfolding run reduce initial_state load_preferences get_item set_item
reload_test = refl
