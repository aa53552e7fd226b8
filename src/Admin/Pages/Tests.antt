-- ===== src/Admin/Pages/Tests.antt =====
-- getPageNumbers on the examples of its comment, and its theorems at page 5 of 10.
use pipeline_azure.Prelude.{◌≡◌, refl, ◌≤◌, [], ◌∷◌, length, arith}
use pipeline_azure.Admin.Pages.{page, ellipsis, get_page_numbers}
use pipeline_azure.Admin.Pages.Links.{Covers, Shows, get_page_numbers-Fits}

middle_of_ten :
    get_page_numbers 5 10 ≡ page 1 ∷ ellipsis ∷ page 4 ∷ page 5 ∷ page 6 ∷ ellipsis ∷ page 10 ∷ []
unfolding get_page_numbers
middle_of_ten = refl

end_of_ten : get_page_numbers 9 10 ≡ page 1 ∷ ellipsis ∷ page 7 ∷ page 8 ∷ page 9 ∷ page 10 ∷ []
unfolding get_page_numbers
end_of_ten = refl

get_page_numbers-Fits_example :
    Covers 1 (get_page_numbers 5 10) 10
    × Shows 5 (get_page_numbers 5 10)
    × (length (get_page_numbers 5 10) ≤ 7)
get_page_numbers-Fits_example = get_page_numbers-Fits 5 10 (omega arith) (omega arith)
