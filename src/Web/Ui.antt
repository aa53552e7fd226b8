-- ===== src/Web/Ui.antt =====
-- src/Presentation/Web/src/presentation/store/slices/uiSlice.ts, with `localStorage` and the
-- attribute `data-theme` of the document.
mod Modals
mod Reload
mod Tests
use pipeline_azure.Prelude.{
  ℕ, Bool, true, false, not, Option, none, some, String, List, [], ◌∷◌, ◌++◌, string_eq, ◌==◌,
  find_by, filter_by, update_first, or_default, if◌then◌else◌,
}
use pipeline_azure.Storage.{LocalStorage, get_item, set_item}

pub data Theme : Type 0 where
  light dark : Theme

pub data Language : Type 0 where
  en tr : Language

abbrev pub theme_text : Theme → String
theme_text light = "light"
theme_text dark = "dark"

abbrev pub language_text : Language → String
language_text en = "en"
language_text tr = "tr"

pub record Modal (T : Type 0) : Type 0 where
  pub id : String
  pub is_open : Bool
  pub payload : Option T

pub data Kind : Type 0 where
  success error warning info : Kind

pub record Notification : Type 0 where
  pub id : String
  pub kind : Kind
  pub message : String
  pub duration : Option ℕ

-- The theme and the language are the texts that `localStorage` held, whatever they are.
pub record UiState (T : Type 0) : Type 0 where
  pub theme : String
  pub language : String
  pub sidebar_open : Bool
  pub modals : List (Modal T)
  pub notifications : List Notification
  pub is_loading : Bool
  pub loading_message : Option String

pub record Page (T : Type 0) : Type 0 where
  pub state : UiState T
  pub storage : LocalStorage String
  pub data_theme : Option String

-- `now` is the text of `Date.now()`.
pub data Action (T : Type 0) : Type 0 where
  set_theme : Theme → Action T
  toggle_theme toggle_sidebar : Action T
  set_language : Language → Action T
  set_sidebar_open : Bool → Action T
  open_modal : (id : String) → Option T → Action T
  close_modal : (id : String) → Action T
  add_notification : (now : String) → Kind → (message : String) → (duration : Option ℕ) → Action T
  remove_notification : (id : String) → Action T
  set_loading : Bool → Option String → Action T

module _ {T : Type 0} where
  unfoldable pub initial_state : LocalStorage String → UiState T
  initial_state storage = record {
    theme = or_default (get_item "theme" storage) "light";
    language = or_default (get_item "language" storage) "en";
    sidebar_open = false;
    modals = [];
    notifications = [];
    is_loading = false;
    loading_message = none;
  }

  abbrev pub find_modal : String → List (Modal T) → Option (Modal T)
  find_modal id modals = find_by (λ m. m.id == id) modals

  abbrev pub opened_modal : String → Option T → Modal T
  opened_modal id payload = record { id = id; is_open = true; payload = payload }

  abbrev pub put_opened : Option (Modal T) → String → Option T → List (Modal T) → List (Modal T)
  put_opened none id payload modals = modals ++ opened_modal id payload ∷ []
  put_opened (some existing) id payload modals =
      update_first (λ m. m.id == id) (λ m. record m { is_open = true; payload = payload }) modals

  unfoldable pub open_modals : String → Option T → List (Modal T) → List (Modal T)
  open_modals id payload modals = put_opened (find_modal id modals) id payload modals

  unfoldable pub close_modals : String → List (Modal T) → List (Modal T)
  close_modals id modals = update_first (λ m. m.id == id) (λ m. record m { is_open = false }) modals

  -- `state.theme = …`, with the item and the attribute that go with it.
  unfoldable pub put_theme : String → Page T → Page T
  put_theme theme p = record {
    state = record p.state { theme = theme };
    storage = set_item "theme" theme p.storage;
    data_theme = some theme;
  }

  unfoldable pub reduce : Page T → Action T → Page T
  unfolding put_theme open_modals close_modals
  reduce p (set_theme t) = put_theme (theme_text t) p
  reduce p toggle_theme = put_theme (if p.state.theme == "light" then "dark" else "light") p
  reduce p (set_language l) = record p {
    state = record p.state { language = language_text l };
    storage = set_item "language" (language_text l) p.storage;
  }
  reduce p toggle_sidebar = record p {
    state = record p.state { sidebar_open = not p.state.sidebar_open };
  }
  reduce p (set_sidebar_open b) = record p { state = record p.state { sidebar_open = b } }
  reduce p (open_modal id payload) = record p {
    state = record p.state { modals = open_modals id payload p.state.modals };
  }
  reduce p (close_modal id) = record p {
    state = record p.state { modals = close_modals id p.state.modals };
  }
  reduce p (add_notification now kind message duration) = record p {
    state = record p.state {
      notifications =
          p.state.notifications
          ++ record { id = now; kind = kind; message = message; duration = duration } ∷ [];
    };
  }
  reduce p (remove_notification id) = record p {
    state = record p.state {
      notifications = filter_by (λ n. not (n.id == id)) p.state.notifications;
    };
  }
  reduce p (set_loading b message) = record p {
    state = record p.state { is_loading = b; loading_message = message };
  }

  unfoldable pub run : Page T → List (Action T) → Page T
  unfolding reduce
  run p [] = p
  run p (a ∷ actions) = run (reduce p a) actions
