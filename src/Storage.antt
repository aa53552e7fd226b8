-- ===== src/Storage.antt =====
-- What the web shop and the admin panel use of the browser: `localStorage`, and arrays as JSON in it.
use text.Mathlib.Text.{◌==◌ as str_eq}
use pipeline_azure.Json.{Json}
use pipeline_azure.Prelude.{
  String, ◌≡◌, refl, Option, none, some, List, [], ◌∷◌, arith, eq_iff, if◌then◌else◌,
}

abbrev pub LocalStorage : Type 0 → Type 0
LocalStorage Text = List (String × Text)

module _ {Text : Type 0} where
  unfoldable pub get_item : String → LocalStorage Text → Option Text
  get_item k [] = none
  get_item k ((j, v) ∷ m) = if str_eq j k then some v else get_item k m

  unfoldable pub remove_item : String → LocalStorage Text → LocalStorage Text
  remove_item k [] = []
  remove_item k ((j, v) ∷ m) =
      let rest = remove_item k m in if str_eq j k then rest else (j, v) ∷ rest

  unfoldable pub set_item : String → Text → LocalStorage Text → LocalStorage Text
  set_item k v [] = (k, v) ∷ []
  set_item k v ((j, w) ∷ m) = if str_eq j k then (k, v) ∷ m else (j, w) ∷ set_item k v m

  pub get_item-set_item :
      (k j : String) (v : Text) (m : LocalStorage Text)
      → get_item j (set_item k v m) ≡ (if str_eq k j then some v else get_item j m)
  unfolding get_item set_item
  get_item-set_item k j v [] = refl
  get_item-set_item k j v ((i, w) ∷ m) =
      ground (arith, eq_iff k j, eq_iff i k, eq_iff i j, get_item-set_item k j v m)

  pub get_item-remove_item :
      (k j : String) (m : LocalStorage Text)
      → get_item j (remove_item k m) ≡ (if str_eq k j then none else get_item j m)
  unfolding get_item remove_item
  get_item-remove_item k j [] = ground arith
  get_item-remove_item k j ((i, w) ∷ m) =
      ground (arith, eq_iff k j, eq_iff i k, eq_iff i j, get_item-remove_item k j m)

pub ruleset storage_laws = (get_item-set_item, get_item-remove_item)

module _ {Text A : Type 0} (json : Json Text (List A)) where
  -- `JSON.parse(localStorage.getItem(key) || '[]')`
  abbrev pub load_list : String → LocalStorage Text → Option (List A)
  load_list k m = elim (get_item k m) [
    | none ↦ some []
    | some t ↦ if json.is_blank t then some [] else json.parse t
  ]

  -- The key holds the array, or nothing if the array is empty.
  pub load_list-set_item :
      (k j : String) (xs : List A) (m : LocalStorage Text)
      → load_list j (set_item k (json.stringify xs) m)
        ≡ (if str_eq k j then some xs else load_list j m)
  load_list-set_item k j xs m = ground (
    arith,
    get_item-set_item k j (json.stringify xs) m,
    json.parse-stringify xs,
    json.stringify-is_blank xs,
  )

  pub load_list-remove_item :
      (k j : String) (m : LocalStorage Text)
      → load_list j (remove_item k m) ≡ (if str_eq k j then some [] else load_list j m)
  load_list-remove_item k j m = ground (arith, get_item-remove_item k j m)
