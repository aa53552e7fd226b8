-- ===== src/Web/Preferences.antt =====
-- src/Presentation/Web/src/presentation/store/slices/preferencesSlice.ts, with `localStorage`.
mod Persisted
mod Tests
use pipeline_azure.Prelude.{ℕ, Bool, true, false, not, Option, none, some, List, [], ◌∷◌}
use pipeline_azure.Json.{Json}
use pipeline_azure.Storage.{LocalStorage, get_item, set_item}

pub data Currency : Type 0 where
  usd eur try : Currency

pub data View : Type 0 where
  grid list_view : View

pub record UserPreferences : Type 0 where
  pub email_notifications : Bool
  pub push_notifications : Bool
  pub currency : Currency
  pub items_per_page : ℕ
  pub default_view : View
  pub auto_save : Bool

-- `Partial<UserPreferences>`: `none` for a property that the object does not have.
pub record PartialPreferences : Type 0 where
  pub email_notifications : Option Bool
  pub push_notifications : Option Bool
  pub currency : Option Currency
  pub items_per_page : Option ℕ
  pub default_view : Option View
  pub auto_save : Option Bool

abbrev pub default_preferences : UserPreferences
default_preferences = record {
  email_notifications = true;
  push_notifications = false;
  currency = usd;
  items_per_page = 12;
  default_view = grid;
  auto_save = true;
}

abbrev override : {A : Type 0} → A → Option A → A
override a none = a
override a (some b) = b

-- `{ ...preferences, ...changes }`, and `Object.assign(preferences, changes)`
abbrev pub spread : UserPreferences → PartialPreferences → UserPreferences
spread p c = record {
  email_notifications = override p.email_notifications c.email_notifications;
  push_notifications = override p.push_notifications c.push_notifications;
  currency = override p.currency c.currency;
  items_per_page = override p.items_per_page c.items_per_page;
  default_view = override p.default_view c.default_view;
  auto_save = override p.auto_save c.auto_save;
}

-- An object that has every property.
abbrev pub complete : UserPreferences → PartialPreferences
complete p = record {
  email_notifications = some p.email_notifications;
  push_notifications = some p.push_notifications;
  currency = some p.currency;
  items_per_page = some p.items_per_page;
  default_view = some p.default_view;
  auto_save = some p.auto_save;
}

pub record PreferencesState : Type 0 where
  pub preferences : UserPreferences
  pub is_initialized : Bool

pub record Page (Text : Type 0) : Type 0 where
  pub state : PreferencesState
  pub storage : LocalStorage Text

pub data Action : Type 0 where
  update_preferences : PartialPreferences → Action
  toggle_email_notifications toggle_push_notifications toggle_auto_save : Action
  reset_preferences : Action
  set_currency : Currency → Action
  set_items_per_page : ℕ → Action
  set_default_view : View → Action

module _ {Text : Type 0} (json : Json Text PartialPreferences) where
  abbrev parsed_preferences : Option PartialPreferences → UserPreferences
  parsed_preferences none = default_preferences
  parsed_preferences (some c) = spread default_preferences c

  unfoldable pub load_preferences : LocalStorage Text → UserPreferences
  load_preferences storage = elim (get_item "userPreferences" storage) [
    | none ↦ default_preferences
    | some stored ↦ elim (json.is_blank stored) [
      | true ↦ default_preferences
      | false ↦ parsed_preferences (json.parse stored)
    ]
  ]

  unfoldable pub initial_state : LocalStorage Text → PreferencesState
  unfolding load_preferences
  initial_state storage = record { preferences = load_preferences storage; is_initialized = true }

  -- The end of each reducer: the new preferences, and the item that they are stored in.
  unfoldable pub store : UserPreferences → Page Text → Page Text
  store p page = record {
    state = record page.state { preferences = p };
    storage = set_item "userPreferences" (json.stringify (complete p)) page.storage;
  }

  -- The preferences that a reducer makes of those of before.
  abbrev pub changed : UserPreferences → Action → UserPreferences
  changed p (update_preferences c) = spread p c
  changed p toggle_email_notifications = record p {
    email_notifications = not p.email_notifications;
  }
  changed p toggle_push_notifications = record p { push_notifications = not p.push_notifications }
  changed p toggle_auto_save = record p { auto_save = not p.auto_save }
  changed p reset_preferences = default_preferences
  changed p (set_currency c) = record p { currency = c }
  changed p (set_items_per_page n) = record p { items_per_page = n }
  changed p (set_default_view v) = record p { default_view = v }

  unfoldable pub reduce : Page Text → Action → Page Text
  unfolding store
  reduce page a = store (changed page.state.preferences a) page

  unfoldable pub run : Page Text → List Action → Page Text
  unfolding reduce
  run page [] = page
  run page (a ∷ actions) = run (reduce page a) actions
