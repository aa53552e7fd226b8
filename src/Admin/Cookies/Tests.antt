-- ===== src/Admin/Cookies/Tests.antt =====
-- cookies.ts on a jar of two cookies.
use pipeline_azure.Prelude.{◌≡◌, refl, none, some, [], ◌∷◌}
use pipeline_azure.Admin.Cookies.{
  codes, text_eq, before, Cookies, get_cookie, document_cookie, split_from,
}

abbrev jar : Cookies
jar = (codes "dir", codes "rtl") ∷ (codes "x_dir", codes "a=b") ∷ []

document_cookie_test : document_cookie jar ≡ codes "dir=rtl; x_dir=a=b"
unfolding document_cookie
document_cookie_test = refl

get_cookie_test :
    (get_cookie (codes "dir") jar ≡ some (codes "rtl"))
    × (get_cookie (codes "x_dir") jar ≡ some (codes "a=b"))
    × (get_cookie (codes "font") jar ≡ none)
unfolding get_cookie document_cookie split_from before
get_cookie_test = (refl, refl, refl)
