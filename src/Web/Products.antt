-- ===== src/Web/Products.antt =====
-- src/Presentation/Web/src/presentation/store/slices/productsSlice.ts
-- The reducers write `localStorage` as they run, so a step takes the state and the storage, and
-- returns both.
pub mod Bounds
pub mod Recent
pub mod Persisted
mod Tests
use pipeline_azure.Prelude.{
  ℕ, ◌+◌, ◌≡◌, Bool, not, ◌&&◌, Option, none, some, String, List, [], ◌∷◌, ◌++◌, ltb, length, take,
  includes, remove, nat_eq, if◌then◌else◌,
}
use pipeline_azure.Json.{Json}
use pipeline_azure.Storage.{LocalStorage, load_list, set_item, remove_item}

pub data SortBy : Type 0 where
  price_asc price_desc rating newest : SortBy

-- Prices and ratings are never computed with here: `Number` is any type.
pub record ProductFilters (Number : Type 0) : Type 0 where
  pub category : Option String
  pub min_price : Option Number
  pub max_price : Option Number
  pub rating : Option Number
  pub search_query : Option String
  pub sort_by : Option SortBy

-- A property of a `Partial` payload: absent, or given, perhaps as `undefined`.
pub data Field (A : Type 0) : Type 0 where
  absent : Field A
  given : Option A → Field A

-- `{ ...old, ...payload }` at one property
abbrev pub spread : {A : Type 0} → Option A → Field A → Option A
spread old absent = old
spread old (given v) = v

pub record PartialFilters (Number : Type 0) : Type 0 where
  pub category : Field String
  pub min_price : Field Number
  pub max_price : Field Number
  pub rating : Field Number
  pub search_query : Field String
  pub sort_by : Field SortBy

pub record ProductsState (Number : Type 0) : Type 0 where
  pub filters : ProductFilters Number
  pub selected_product_id : Option ℕ
  pub compare_list : List ℕ
  pub recently_viewed : List ℕ

pub data Action (Number : Type 0) : Type 0 where
  set_filters : ProductFilters Number → Action Number
  update_filter : PartialFilters Number → Action Number
  clear_filters : Action Number
  set_selected_product : Option ℕ → Action Number
  add_to_compare remove_from_compare : ℕ → Action Number
  clear_compare_list : Action Number
  add_to_recently_viewed : ℕ → Action Number
  clear_recently_viewed : Action Number

abbrev pub no_filters : {Number : Type 0} → ProductFilters Number
no_filters = record {
  category = none;
  min_price = none;
  max_price = none;
  rating = none;
  search_query = none;
  sort_by = none;
}

abbrev pub merge_filters :
    {Number : Type 0} → ProductFilters Number → PartialFilters Number → ProductFilters Number
merge_filters f p = record {
  category = spread f.category p.category;
  min_price = spread f.min_price p.min_price;
  max_price = spread f.max_price p.max_price;
  rating = spread f.rating p.rating;
  search_query = spread f.search_query p.search_query;
  sort_by = spread f.sort_by p.sort_by;
}

-- The slice's state beside the browser's `localStorage`.
pub record Page (Number Text : Type 0) : Type 0 where
  pub state : ProductsState Number
  pub storage : LocalStorage Text

-- The body of `addToRecentlyViewed`.
abbrev pub view : ℕ → List ℕ → List ℕ
view id viewed =
    let longer = id ∷ remove id viewed in if ltb 10 (length longer) then take 10 longer else longer

module _ {Number Text : Type 0} (json : Json Text (List ℕ)) where
  -- `initialState`; `none` is the exception of `JSON.parse`.
  unfoldable pub initial_state : LocalStorage Text → Option (ProductsState Number)
  initial_state storage = elim (load_list json "compareList" storage) [
    | none ↦ none
    | some compared ↦ elim (load_list json "recentlyViewed" storage) [
      | none ↦ none
      | some viewed ↦ some (record {
        filters = no_filters;
        selected_product_id = none;
        compare_list = compared;
        recently_viewed = viewed;
      })
    ]
  ]

  save_compare : Page Number Text → List ℕ → Page Number Text
  save_compare p ids = record {
    state = record p.state { compare_list = ids };
    storage = set_item "compareList" (json.stringify ids) p.storage;
  }

  unfoldable pub reduce : Page Number Text → Action Number → Page Number Text
  unfolding save_compare
  reduce p (set_filters f) = record p { state = record p.state { filters = f } }
  reduce p (update_filter f) = record p {
    state = record p.state { filters = merge_filters p.state.filters f };
  }
  reduce p clear_filters = record p { state = record p.state { filters = no_filters } }
  reduce p (set_selected_product id) = record p {
    state = record p.state { selected_product_id = id };
  }
  reduce p (add_to_compare id) =
      if not (includes p.state.compare_list id) && ltb (length p.state.compare_list) 4
      then save_compare p (p.state.compare_list ++ id ∷ [])
      else p
  reduce p (remove_from_compare id) = save_compare p (remove id p.state.compare_list)
  reduce p clear_compare_list = record {
    state = record p.state { compare_list = [] };
    storage = remove_item "compareList" p.storage;
  }
  reduce p (add_to_recently_viewed id) =
      let viewed = view id p.state.recently_viewed in
      record {
        state = record p.state { recently_viewed = viewed };
        storage = set_item "recentlyViewed" (json.stringify viewed) p.storage;
      }
  reduce p clear_recently_viewed = record {
    state = record p.state { recently_viewed = [] };
    storage = remove_item "recentlyViewed" p.storage;
  }

  unfoldable pub run : Page Number Text → List (Action Number) → Page Number Text
  run p [] = p
  run p (a ∷ actions) = run (reduce p a) actions
