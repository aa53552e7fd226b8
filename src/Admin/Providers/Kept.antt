-- ===== src/Admin/Providers/Kept.antt =====
-- The providers of the admin panel: the cookies beside the settings, by each operation.
use pipeline_azure.Prelude.{
  ℕ, ◌≡◌, refl, ◌∙◌, ap, Bool, true, false, not, none, some, nat_eq, ◌==◌, if◌then◌else◌,
}
use pipeline_azure.Admin.Cookies.{
  Text, text_eq, text_same, cookie_value, get_cookie, set_cookie, remove_cookie,
}
use pipeline_azure.Admin.Cookies.Split.{IsName, IsClean}
use pipeline_azure.Admin.Cookies.Jar.{set_cookie-IsClean, remove_cookie-IsClean}
use pipeline_azure.Admin.Providers.{
  Theme, system, Direction, ltr, Font, inter, Collapsible, icon, Variant, inset, theme_text,
  direction_text, font_text, collapsible_text, variant_text, bool_text, theme_cookie_name,
  direction_cookie_name, font_cookie_name, collapsible_cookie_name, variant_cookie_name,
  sidebar_cookie_name, year, week, Settings, Page, initial_settings, set_theme, reset_theme,
  set_dir, reset_dir, set_font, reset_font, set_collapsible, set_variant, reset_layout, set_open,
  toggle_sidebar,
}
use pipeline_azure.Admin.Providers.Found.{
  theme-IsName, dir-IsName, font-IsName, collapsible-IsName, variant-IsName, sidebar-IsName,
  read_all, initial_settings-set_cookie, initial_settings-remove_cookie, theme_text-read,
  direction_text-read, font_text-read, collapsible_text-read, variant_text-read, bool_text-read,
}

-- The cookies can be read, and a reload finds what is shown.
pub record Kept (p : Page) : Type 0 where
  pub clean : IsClean p.cookies
  pub same : initial_settings p.cookies ≡ p.settings

set-Kept :
    (n : Text)
    → IsName n
    → (v : Text) (max_age : ℕ) → (max_age == 0) ≡ false
    → (change : Settings → Settings) (p : Page)
    → read_all (λ j. if n == j then some (cookie_value v) else get_cookie j p.cookies)
      ≡ change (initial_settings p.cookies)
    → Kept p
    → Kept (record p { cookies = set_cookie n v max_age p.cookies; settings = change p.settings })
set-Kept n name v max_age kept change p found k = record {
  clean = set_cookie-IsClean n p.cookies name k.clean v max_age;
  same =
      initial_settings-set_cookie n p.cookies name k.clean v max_age kept
      ∙ found
      ∙ ap change k.same;
}

reset-Kept :
    (n : Text)
    → IsName n
    → (change : Settings → Settings) (p : Page)
    → read_all (λ j. if n == j then none else get_cookie j p.cookies)
      ≡ change (initial_settings p.cookies)
    → Kept p
    → Kept (record p { cookies = remove_cookie n p.cookies; settings = change p.settings })
reset-Kept n name change p found k = record {
  clean = remove_cookie-IsClean n p.cookies name k.clean;
  same = initial_settings-remove_cookie n p.cookies name k.clean ∙ found ∙ ap change k.same;
}

pub set_theme-Kept : (c : Theme) (p : Page) → Kept p → Kept (set_theme c p)
unfolding set_theme initial_settings text_same
set_theme-Kept c p =
    set-Kept theme_cookie_name theme-IsName (theme_text c) year refl
      (λ s. record s { theme = theme_text c }) p
      (ap (λ v. record (initial_settings p.cookies) { theme = v })
        (theme_text-read c (theme_text system)))

pub set_dir-Kept : (c : Direction) (p : Page) → Kept p → Kept (set_dir c p)
unfolding set_dir initial_settings text_same
set_dir-Kept c p =
    set-Kept direction_cookie_name dir-IsName (direction_text c) year refl
      (λ s. record s { dir = direction_text c }) p
      (ap (λ v. record (initial_settings p.cookies) { dir = v })
        (direction_text-read c (direction_text ltr)))

pub set_font-Kept : (c : Font) (p : Page) → Kept p → Kept (set_font c p)
unfolding set_font initial_settings text_same
set_font-Kept c p =
    set-Kept font_cookie_name font-IsName (font_text c) year refl
      (λ s. record s { font = font_text c }) p
      (ap (λ v. record (initial_settings p.cookies) { font = v }) (font_text-read c))

pub set_collapsible-Kept : (c : Collapsible) (p : Page) → Kept p → Kept (set_collapsible c p)
unfolding set_collapsible initial_settings text_same
set_collapsible-Kept c p =
    set-Kept collapsible_cookie_name collapsible-IsName (collapsible_text c) week refl
      (λ s. record s { collapsible = collapsible_text c }) p
      (ap (λ v. record (initial_settings p.cookies) { collapsible = v })
        (collapsible_text-read c (collapsible_text icon)))

pub set_variant-Kept : (c : Variant) (p : Page) → Kept p → Kept (set_variant c p)
unfolding set_variant initial_settings text_same
set_variant-Kept c p =
    set-Kept variant_cookie_name variant-IsName (variant_text c) week refl
      (λ s. record s { variant = variant_text c }) p
      (ap (λ v. record (initial_settings p.cookies) { variant = v })
        (variant_text-read c (variant_text inset)))

pub set_open-Kept : (c : Bool) (p : Page) → Kept p → Kept (set_open c p)
unfolding set_open initial_settings text_same
set_open-Kept c p =
    set-Kept sidebar_cookie_name sidebar-IsName (bool_text c) week refl
      (λ s. record s { is_open = c }) p
      (ap (λ v. record (initial_settings p.cookies) { is_open = v }) (bool_text-read c))

pub reset_theme-Kept : (p : Page) → Kept p → Kept (reset_theme p)
unfolding reset_theme initial_settings text_same
reset_theme-Kept p =
    reset-Kept theme_cookie_name theme-IsName (λ s. record s { theme = theme_text system }) p refl

pub reset_dir-Kept : (p : Page) → Kept p → Kept (reset_dir p)
unfolding reset_dir initial_settings text_same
reset_dir-Kept p =
    reset-Kept direction_cookie_name dir-IsName (λ s. record s { dir = direction_text ltr }) p refl

pub reset_font-Kept : (p : Page) → Kept p → Kept (reset_font p)
unfolding reset_font initial_settings text_same
reset_font-Kept p =
    reset-Kept font_cookie_name font-IsName (λ s. record s { font = font_text inter }) p refl

pub reset_layout-Kept : (p : Page) → Kept p → Kept (reset_layout p)
unfolding reset_layout
reset_layout-Kept p k = set_variant-Kept inset _ (set_collapsible-Kept icon p k)

Kept-if : (b : Bool) (p q : Page) → Kept p → Kept q → Kept (if b then p else q)
Kept-if true p q k l = k
Kept-if false p q k l = l

pub toggle_sidebar-Kept : (p : Page) → Kept p → Kept (toggle_sidebar p)
unfolding toggle_sidebar
toggle_sidebar-Kept p k =
    Kept-if p.is_mobile _ (set_open (not p.settings.is_open) p)
      (record { clean = k.clean; same = k.same }) (set_open-Kept (not p.settings.is_open) p k)
