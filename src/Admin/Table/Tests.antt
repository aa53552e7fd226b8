-- ===== src/Admin/Table/Tests.antt =====
-- useTableUrlState on a concrete table, and its theorems at it.
use package.text.Mathlib.Text.{◌==◌ as str_eq}
use pipeline_azure.Admin.Table.Trim.{trim}
use pipeline_azure.Prelude.{◌-◌, ◌≡◌, refl, max, true, false, none, some, [], ◌∷◌}
use pipeline_azure.Admin.Table.{
  trim, undefined, number, text, Params, PaginationState, Table, next_value, pagination,
  on_pagination_change, on_global_filter_change,
}
use pipeline_azure.Admin.Table.Reads.{pagination-on_pagination_change}

abbrev params : Params
params = record {
  page_key = none;
  page_size_key = none;
  default_page = none;
  default_page_size = none;
  enabled = none;
  key = none;
  trim_global = none;
  columns =
      record {
        column_id = "name";
        search_key = "name";
        is_string = true;
        serialize = none;
        deserialize = none;
      }
      ∷ [];
}

abbrev table : Table
table = record {
  search = λ key. elim (str_eq key "page") [ true ↦ number 9 | false ↦ undefined ];
  global_filter = some [];
  column_filters = [];
}

abbrev third_page : PaginationState
third_page = record { page_index = 2; page_size = 25 }

pagination-on_pagination_change_example :
    pagination params (on_pagination_change params (next_value third_page) table).search
    ≡ record { page_index = max 2 (1 - 1); page_size = 25 }
pagination-on_pagination_change_example =
    pagination-on_pagination_change params (next_value third_page) table refl

-- " ab " is filtered by "ab".
trimmed :
    (on_global_filter_change params (next_value (32 ∷ 97 ∷ 98 ∷ 32 ∷ [])) table).global_filter
    ≡ some (97 ∷ 98 ∷ [])
unfolding on_global_filter_change trim
trimmed = refl
