-- ===== src/Admin/Providers/Reload.antt =====
-- The providers of the admin panel: what a reload of the page finds.
use pipeline_azure.Prelude.{◌≡◌, Bool, List, [], ◌∷◌, nat_eq}
use pipeline_azure.Admin.Cookies.{text_eq}
use pipeline_azure.Admin.Providers.{
  Theme, Direction, Font, Collapsible, Variant, Page, initial_settings, set_theme, reset_theme,
  set_dir, reset_dir, set_font, reset_font, set_collapsible, set_variant, reset_layout, set_open,
  toggle_sidebar,
}
use pipeline_azure.Admin.Providers.Kept.{
  Kept, set_theme-Kept, set_dir-Kept, set_font-Kept, set_collapsible-Kept, set_variant-Kept,
  set_open-Kept, reset_theme-Kept, reset_dir-Kept, reset_font-Kept, reset_layout-Kept,
  toggle_sidebar-Kept,
}

-- What the user chooses.
pub data Event : Type 0 where
  sets_theme : Theme → Event
  sets_dir : Direction → Event
  sets_font : Font → Event
  sets_collapsible : Collapsible → Event
  sets_variant : Variant → Event
  sets_open : Bool → Event
  resets_theme resets_dir resets_font resets_layout toggles_sidebar : Event

unfoldable pub step : Event → Page → Page
step (sets_theme t) p = set_theme t p
step (sets_dir d) p = set_dir d p
step (sets_font f) p = set_font f p
step (sets_collapsible c) p = set_collapsible c p
step (sets_variant v) p = set_variant v p
step (sets_open o) p = set_open o p
step resets_theme p = reset_theme p
step resets_dir p = reset_dir p
step resets_font p = reset_font p
step resets_layout p = reset_layout p
step toggles_sidebar p = toggle_sidebar p

unfoldable pub run : List Event → Page → Page
unfolding step
run [] p = p
run (e ∷ events) p = run events (step e p)

step-Kept : (e : Event) (p : Page) → Kept p → Kept (step e p)
unfolding step
step-Kept (sets_theme t) p k = set_theme-Kept t p k
step-Kept (sets_dir d) p k = set_dir-Kept d p k
step-Kept (sets_font f) p k = set_font-Kept f p k
step-Kept (sets_collapsible c) p k = set_collapsible-Kept c p k
step-Kept (sets_variant v) p k = set_variant-Kept v p k
step-Kept (sets_open o) p k = set_open-Kept o p k
step-Kept resets_theme p k = reset_theme-Kept p k
step-Kept resets_dir p k = reset_dir-Kept p k
step-Kept resets_font p k = reset_font-Kept p k
step-Kept resets_layout p k = reset_layout-Kept p k
step-Kept toggles_sidebar p k = toggle_sidebar-Kept p k

run-Kept : (events : List Event) (p : Page) → Kept p → Kept (run events p)
unfolding run
run-Kept [] p k = k
run-Kept (e ∷ events) p k = run-Kept events (step e p) (step-Kept e p k)

-- From a page whose cookies can be read, and that shows the settings that a reload would find:
-- after any choices and resets of the theme, the direction, the font and the layout, and whatever
-- is done with the sidebar, a reload finds the settings as they are shown.
pub initial_settings-run :
    (events : List Event) (p : Page)
    → Kept p
    → initial_settings (run events p).cookies ≡ (run events p).settings
initial_settings-run events p k = (run-Kept events p k).same
