-- ===== src/Web/Preferences/Persisted.antt =====
-- preferencesSlice: what a reload of the page finds.
use pipeline_azure.Prelude.{sym, ◌≡◌, List, [], ◌∷◌, arith}
use pipeline_azure.Json.{Json}
use pipeline_azure.Storage.{get_item-set_item}
use pipeline_azure.Web.Preferences.{
  UserPreferences, PartialPreferences, Page, Action, complete, changed, load_preferences,
  initial_state, store, reduce, run,
}

module _ {Text : Type 0} (json : Json Text PartialPreferences) where
  load_preferences-store :
      (p : UserPreferences) (page : Page Text)
      → load_preferences json (store json p page).storage ≡ p
  unfolding load_preferences store
  load_preferences-store p page = ground (
    arith,
    get_item-set_item "userPreferences" "userPreferences" (json.stringify (complete p))
        page.storage,
    json.stringify-is_blank (complete p),
    json.parse-stringify (complete p),
  )

  unfoldable pub IsPersisted : Page Text → Type 0
  IsPersisted page = page.state ≡ initial_state json page.storage

  reduce-IsPersisted :
      (page : Page Text) (a : Action) → IsPersisted page → IsPersisted (reduce json page a)
  unfolding IsPersisted initial_state reduce store
  reduce-IsPersisted page a h = λ k. record {
    preferences = sym (load_preferences-store (changed json page.state.preferences a) page) k;
    is_initialized = (h k).is_initialized;
  }

  -- A page whose state is the one that a reload would find keeps this by whatever actions: each change
  -- of the preferences survives a reload, and what no action changed is as before.
  state-run :
      (page : Page Text) (actions : List Action)
      → page.state ≡ initial_state json page.storage
      → (run json page actions).state ≡ initial_state json (run json page actions).storage
  unfolding run IsPersisted
  state-run page [] h = h
  state-run page (a ∷ actions) h =
      state-run (reduce json page a) actions (reduce-IsPersisted page a h)
