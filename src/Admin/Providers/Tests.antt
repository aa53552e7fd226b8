-- ===== src/Admin/Providers/Tests.antt =====
-- The providers of the admin panel on concrete inputs.
use pipeline_azure.Prelude.{◌≡◌, refl, false, List, [], ◌∷◌, includes}
use pipeline_azure.Admin.Cookies.{
  trimmed, codes, text_same, get_cookie, split_from, document_cookie, starts_with, before,
}
use pipeline_azure.Admin.Cookies.Split.{free, lookup, IsName}
use pipeline_azure.Admin.Providers.{
  Page, dark, light, rtl, manrope, offcanvas, floating, initial_settings, font_cookie_name,
  theme_cookie_name,
}
use pipeline_azure.Admin.Providers.Kept.{Kept}
use pipeline_azure.Admin.Providers.Reload.{
  Event, sets_theme, sets_dir, sets_font, sets_collapsible, sets_variant, toggles_sidebar,
  resets_font, resets_layout, run, initial_settings-run,
}

abbrev page : Page
page = record {
  cookies = (font_cookie_name, codes "manrope") ∷ [];
  settings = initial_settings ((font_cookie_name, codes "manrope") ∷ []);
  is_mobile = false;
  open_mobile = false;
}

-- A font that is not one of the list is passed over, a theme is not looked at.
initial_settings_example :
    let s =
      initial_settings
        ((theme_cookie_name, codes "pink") ∷ (font_cookie_name, codes "pink") ∷ []) in
    (s.theme ≡ codes "pink") × (s.font ≡ codes "inter")
unfolding initial_settings get_cookie split_from document_cookie starts_with before includes
    text_same
initial_settings_example = (refl, refl)

abbrev choices : List Event
choices =
    sets_theme dark
    ∷ sets_dir rtl
    ∷ resets_font
    ∷ sets_collapsible offcanvas
    ∷ toggles_sidebar
    ∷ sets_variant floating
    ∷ sets_font manrope
    ∷ toggles_sidebar
    ∷ resets_layout
    ∷ sets_theme light
    ∷ []

page-Kept : Kept page
unfolding free lookup IsName trimmed
page-Kept = record { clean = ((refl, refl, refl), refl, refl, tt); same = refl }

initial_settings-run_example :
    initial_settings (run choices page).cookies ≡ (run choices page).settings
initial_settings-run_example = initial_settings-run choices page page-Kept
