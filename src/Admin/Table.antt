-- ===== src/Admin/Table.antt =====
-- useTableUrlState of src/Presentation/Admin/src/hooks/use-table-url-state.ts.
-- The numbers in the address are natural numbers here, and a text is its UTF-16 code units.
pub mod Trim
mod Reads
mod Tests
use package.text.Mathlib.Text.{◌==◌ as str_eq}
use pipeline_azure.Prelude.{
  ℕ, zero, suc, ◌+◌, ◌-◌, Bool, true, false, not, ◌&&◌, Option, none, some, String, List, [], ◌∷◌,
  ◌++◌, nat_beq, leb, ltb, find_by, if◌then◌else◌,
}
use pipeline_azure.Admin.Table.Trim.{Text, trim, is_empty}

-- What stands under a key of the address.
pub data Value : Type 0 where
  undefined null other : Value
  number : ℕ → Value
  text : Text → Value
  array : List Text → Value

-- `SearchRecord`
abbrev pub Search : Type 0
Search = String → Value

-- `{ ...search, [key]: value }`
unfoldable pub assign : String → Value → Search → Search
assign key value search k = if str_eq key k then value else search k

-- `x ?? y` of an optional setting.
abbrev pub get_or {ℓ} : {A : Type ℓ} → A → Option A → A
get_or y none = y
get_or y (some x) = x

abbrev pub coalesce : Value → Value → Value
coalesce undefined y = y
coalesce null y = y
coalesce x y = x

pub record ColumnConfig : Type 0 where
  pub column_id : String
  pub search_key : String
  pub is_string : Bool
  pub serialize : Option (Value → Value)
  pub deserialize : Option (Value → Value)

pub record Params : Type 0 where
  pub page_key : Option String
  pub page_size_key : Option String
  pub default_page : Option ℕ
  pub default_page_size : Option ℕ
  pub enabled : Option Bool
  pub key : Option String
  pub trim_global : Option Bool
  pub columns : List ColumnConfig

pub record ColumnFilter : Type 0 where
  pub id : String
  pub value : Value

pub record PaginationState : Type 0 where
  pub page_index : ℕ
  pub page_size : ℕ

pub data Updater {ℓ} (A : Type ℓ) : Type ℓ where
  updater : (A → A) → Updater A
  next_value : A → Updater A

abbrev pub apply {ℓ} : {A : Type ℓ} → Updater A → A → A
apply (updater f) a = f a
apply (next_value b) a = b

-- What the hook keeps, and the address.
pub record Table : Type 0 where
  pub search : Search
  pub global_filter : Option Text
  pub column_filters : List ColumnFilter

abbrev pub number_or : ℕ → Value → ℕ
number_or d (number n) = n
number_or d v = d

abbrev pub text_or_empty : Value → Text
text_or_empty (text t) = t
text_or_empty v = []

abbrev array_or_empty : Value → List Text
array_or_empty (array ts) = ts
array_or_empty v = []

abbrev is_blank : Text → Bool
is_blank t = is_empty (trim t)

abbrev collect_string : String → Value → List ColumnFilter
collect_string id (text t) = if is_blank t then [] else record { id = id; value = text t } ∷ []
collect_string id v = []

abbrev collect_array : String → Value → List ColumnFilter
collect_array id (array (x ∷ xs)) = record { id = id; value = array (x ∷ xs) } ∷ []
collect_array id v = []

abbrev pub collect : ColumnConfig → Value → List ColumnFilter
collect cfg raw =
    let value = get_or (λ v. v) cfg.deserialize raw in
    if cfg.is_string
    then collect_string cfg.column_id (coalesce value (text []))
    else collect_array cfg.column_id (coalesce value (array []))

unfoldable pub initial_column_filters : List ColumnConfig → Search → List ColumnFilter
initial_column_filters [] search = []
initial_column_filters (cfg ∷ cfgs) search =
    collect cfg (search cfg.search_key) ++ initial_column_filters cfgs search

abbrev found_value : Option ColumnFilter → Value
found_value none = undefined
found_value (some f) = f.value

-- What a filter leaves in the address: `undefined` for a blank one.
abbrev pub patch_value : ColumnConfig → List ColumnFilter → Value
patch_value cfg next =
    let value = found_value (find_by (λ f. str_eq f.id cfg.column_id) next) in
    let serialize = get_or (λ v. v) cfg.serialize in
    if cfg.is_string
    then (if is_blank (text_or_empty value)
        then undefined
        else serialize (text (text_or_empty value)))
    else elim (array_or_empty value) [ [] ↦ undefined | x ∷ xs ↦ serialize (array (x ∷ xs)) ]

-- `{ ...search, ...patch }`: a later filter's key wins.
unfoldable pub assign_patch : List ColumnConfig → List ColumnFilter → Search → Search
unfolding assign
assign_patch [] next search = search
assign_patch (cfg ∷ cfgs) next search =
    assign_patch cfgs next (assign cfg.search_key (patch_value cfg next) search)

module _ (params : Params) where
  abbrev pub page_key : String
  page_key = get_or "page" params.page_key

  abbrev pub page_size_key : String
  page_size_key = get_or "pageSize" params.page_size_key

  abbrev pub default_page : ℕ
  default_page = get_or 1 params.default_page

  abbrev pub default_page_size : ℕ
  default_page_size = get_or 10 params.default_page_size

  abbrev pub global_filter_key : String
  global_filter_key = get_or "filter" params.key

  abbrev pub page_num : Search → ℕ
  page_num search = number_or default_page (search page_key)

  unfoldable pub pagination : Search → PaginationState
  pagination search = record {
    page_index = page_num search - 1;
    page_size = number_or default_page_size (search page_size_key);
  }

  unfoldable pub initial_global_filter : Search → Option Text
  initial_global_filter search =
      if get_or true params.enabled then some (text_or_empty (search global_filter_key)) else none

  unfoldable pub mount : Search → Table
  unfolding initial_global_filter initial_column_filters
  mount search = record {
    search = search;
    global_filter = initial_global_filter search;
    column_filters = initial_column_filters params.columns search;
  }

  unfoldable pub on_pagination_change : Updater PaginationState → Table → Table
  unfolding pagination assign
  on_pagination_change u t =
      let next = apply u (pagination t.search) in
      let page =
        if leb (suc next.page_index) default_page
        then undefined
        else number (suc next.page_index) in
      let size =
        if nat_beq next.page_size default_page_size then undefined else number next.page_size in
      record t { search = assign page_size_key size (assign page_key page t.search) }

  -- There is no handler when the filter is not enabled.
  unfoldable pub on_global_filter_change : Updater Text → Table → Table
  unfolding assign
  on_global_filter_change u t =
      if get_or true params.enabled
      then (let next = apply u (get_or [] t.global_filter) in
          let value = if get_or true params.trim_global then trim next else next in
          record t {
            global_filter = some value;
            search =
                assign global_filter_key (if is_empty value then undefined else text value)
                  (assign page_key undefined t.search);
          })
      else t

  unfoldable pub on_column_filters_change : Updater (List ColumnFilter) → Table → Table
  unfolding assign_patch assign
  on_column_filters_change u t =
      let next = apply u t.column_filters in
      record t {
        column_filters = next;
        search = assign_patch params.columns next (assign page_key undefined t.search);
      }

  -- `reset_to_last` is `opts.resetTo === 'last'`.
  unfoldable pub ensure_page_in_range : ℕ → Bool → Table → Table
  unfolding assign
  ensure_page_in_range page_count reset_to_last t =
      if ltb 0 page_count && ltb page_count (page_num t.search)
      then record t {
        search = assign page_key (if reset_to_last then number page_count else undefined) t.search;
      }
      else t
