-- ===== src/Admin/Pages.antt =====
-- getPageNumbers of src/Presentation/Admin/src/lib/utils.ts.
mod Links
mod Tests
use pipeline_azure.Prelude.{ℕ, zero, suc, ◌+◌, ◌-◌, Bool, List, [], ◌∷◌, ◌++◌, leb, if◌then◌else◌}

-- A button with a page's number, or '...'.
pub data Link : Type 0 where
  page : ℕ → Link
  ellipsis : Link

unfoldable pub pages_from : ℕ → ℕ → List Link
pages_from i zero = []
pages_from i (suc n) = page i ∷ pages_from (suc i) n

-- `for (let i = first; i <= last; i++) rangeWithDots.push(i)`
unfoldable pub push_range : ℕ → ℕ → List Link
unfolding pages_from
push_range first last = pages_from first (suc last - first)

abbrev pub max_visible_pages : ℕ
max_visible_pages = 5

unfoldable pub get_page_numbers : ℕ → ℕ → List Link
unfolding push_range
get_page_numbers current_page total_pages =
    if leb total_pages max_visible_pages
    then push_range 1 total_pages
    else if leb current_page 3
    then page 1 ∷ push_range 2 4 ++ (ellipsis ∷ page total_pages ∷ [])
    else if leb (total_pages - 2) current_page
    then page 1 ∷ ellipsis ∷ push_range (total_pages - 3) total_pages
    else page 1 ∷ ellipsis ∷ push_range (current_page - 1) (suc current_page)
      ++ (ellipsis ∷ page total_pages ∷ [])
