-- ===== src/Admin/Table/Reads.antt =====
-- useTableUrlState: what the next reading of the address finds after a change.
use package.text.Mathlib.Text.{◌==◌ as str_eq}
use pipeline_azure.Prelude.{
  ◌∙◌, ap, ℕ, suc, ◌-◌, ◌≤◌, ◌≡◌, refl, max, Bool, true, false, some, String, List, [], ◌∷◌, arith,
  eq_iff, leb, nat_beq, if◌then◌else◌, All,
}
use pipeline_azure.Admin.Table.{
  trim, is_empty, number_or, text_or_empty, patch_value, Text, Value, undefined, number, text,
  Search, assign, get_or, Params, ColumnConfig, ColumnFilter, PaginationState, Table, Updater,
  apply, assign_patch, page_key, page_size_key, default_page, default_page_size, global_filter_key,
  page_num, pagination, initial_global_filter, on_pagination_change, on_global_filter_change,
  on_column_filters_change, ensure_page_in_range,
}

assign-same : (key : String) (v : Value) (s : Search) → assign key v s key ≡ v
unfolding assign
assign-same key v s = ground (arith, eq_iff key key)

assign-other :
    (key k : String) (v : Value) (s : Search) → str_eq key k ≡ false → assign key v s k ≡ s k
unfolding assign
assign-other key k v s h = ground arith

-- A column's filter does not stand under the key.
abbrev pub IsElsewhere : String → ColumnConfig → Type 0
IsElsewhere key cfg = str_eq cfg.search_key key ≡ false

assign_patch-other :
    (key : String) (cfgs : List ColumnConfig) (next : List ColumnFilter) (s : Search)
    → All (IsElsewhere key) cfgs
    → assign_patch cfgs next s key ≡ s key
unfolding assign_patch
assign_patch-other key [] next s h = refl
assign_patch-other key (cfg ∷ cfgs) next s h =
    assign_patch-other key cfgs next (assign cfg.search_key (patch_value cfg next) s) h.1
    ∙ assign-other cfg.search_key key (patch_value cfg next) s h.0

record_eq :
    {i j m n : ℕ}
    → i ≡ j
    → m ≡ n
    → ◌≡◌ {A = PaginationState}
        (record { page_index = i; page_size = m })
        (record { page_index = j; page_size = n })
record_eq e f = λ k. record { page_index = e k; page_size = f k }

page_read :
    (i d : ℕ)
    → number_or d (if leb (suc i) d then undefined else number (suc i)) - 1 ≡ max i (d - 1)
page_read i d = ground arith

size_read : (n d : ℕ) → number_or d (if nat_beq n d then undefined else number n) ≡ n
size_read n d = ground arith

filter_read : (t : Text) → text_or_empty (if is_empty t then undefined else text t) ≡ t
filter_read [] = refl
filter_read (u ∷ us) = refl

module _ (params : Params) where
  pagination-assign :
      (size page : Value) (s : Search)
      → str_eq (page_size_key params) (page_key params) ≡ false
      → pagination params (assign (page_size_key params) size (assign (page_key params) page s))
        ≡ record {
          page_index = number_or (default_page params) page - 1;
          page_size = number_or (default_page_size params) size;
        }
  unfolding pagination
  pagination-assign size page s d =
      rw
        (
          assign-same (page_size_key params) size (assign (page_key params) page s),
          assign-other (page_size_key params) (page_key params) size
              (assign (page_key params) page s) d,
          assign-same (page_key params) page s,
        )
        refl

  -- If the page and its size have two keys: after a change of the pagination, the address is read as
  -- the size that was set, and as the page that was set or the default page, whichever is later.
  pub pagination-on_pagination_change :
      (u : Updater PaginationState) (t : Table)
      → str_eq (page_size_key params) (page_key params) ≡ false
      → pagination params (on_pagination_change params u t).search ≡ record {
        page_index =
            max (apply u (pagination params t.search)).page_index (default_page params - 1);
        page_size = (apply u (pagination params t.search)).page_size;
      }
  unfolding pagination on_pagination_change
  pagination-on_pagination_change u t d =
      let next = apply u (pagination params t.search) in
      pagination-assign _ _ t.search d
      ∙ record_eq (page_read next.page_index (default_page params))
          (size_read next.page_size (default_page_size params))

  -- A change of the global filter leaves an address from which the hook starts with that filter.
  initial_global_filter-on_global_filter_change :
      (u : Updater Text) (t : Table)
      → get_or true params.enabled ≡ true
      → initial_global_filter params (on_global_filter_change params u t).search
        ≡ (on_global_filter_change params u t).global_filter
  unfolding initial_global_filter on_global_filter_change
  initial_global_filter-on_global_filter_change u t h =
      let next = apply u (get_or [] t.global_filter) in
      let value = if get_or true params.trim_global then trim next else next in
      rw h (
        ap some (
          ap text_or_empty (
            assign-same (global_filter_key params)
              (if is_empty value then undefined else text value)
              (assign (page_key params) undefined t.search))
          ∙ filter_read value))

  -- If no column's filter stands under the key of the page, a change of the columns' filters opens
  -- the default page.
  page_num-on_column_filters_change :
      (u : Updater (List ColumnFilter)) (t : Table)
      → All (IsElsewhere (page_key params)) params.columns
      → page_num params (on_column_filters_change params u t).search ≡ default_page params
  unfolding on_column_filters_change
  page_num-on_column_filters_change u t h = ap (number_or (default_page params)) (
      assign_patch-other (page_key params) params.columns (apply u t.column_filters)
        (assign (page_key params) undefined t.search) h
      ∙ assign-same (page_key params) undefined t.search)

  -- If there are pages: a page after the last one becomes the last one or the default page, as the
  -- caller asks, and any other page stays.
  page_num-ensure_page_in_range :
      (page_count : ℕ) (reset_to_last : Bool) (t : Table)
      → 1 ≤ page_count
      → page_num params (ensure_page_in_range params page_count reset_to_last t).search ≡ (
          if leb (page_num params t.search) page_count
          then page_num params t.search
          else if reset_to_last
          then page_count
          else default_page params)
  unfolding ensure_page_in_range
  page_num-ensure_page_in_range n last t h = ground (
    arith,
    assign-same (page_key params) undefined t.search,
    assign-same (page_key params) (number n) t.search,
  )
