-- ===== src/Admin/Providers.antt =====
-- src/Presentation/Admin/src/context: theme-provider.tsx, direction-provider.tsx, font-provider.tsx
-- and layout-provider.tsx, and the sidebar of components/ui/sidebar.tsx with its cookie, which
-- components/layout/authenticated-layout.tsx reads. The casts of the cookies check nothing, so what
-- a page shows is a text; what is set is one of the choices. The classes of the document and the
-- resolved theme are left out.
pub mod Found
pub mod Kept
pub mod Reload
mod Tests
use pipeline_azure.Prelude.{
  ℕ, Bool, true, false, not, Option, none, some, String, List, [], ◌∷◌, ◌==◌, includes,
  if◌then◌else◌,
}
use pipeline_azure.Admin.Cookies.{
  Text, text_eq, text_same, codes, Cookies, get_cookie, set_cookie, remove_cookie,
}

pub data Theme : Type 0 where
  dark light system : Theme

pub data Direction : Type 0 where
  ltr rtl : Direction

pub data Font : Type 0 where
  inter manrope system_font : Font

pub data Collapsible : Type 0 where
  offcanvas icon no_collapse : Collapsible

pub data Variant : Type 0 where
  inset sidebar floating : Variant

abbrev pub theme_text : Theme → Text
theme_text dark = codes "dark"
theme_text light = codes "light"
theme_text system = codes "system"

abbrev pub direction_text : Direction → Text
direction_text ltr = codes "ltr"
direction_text rtl = codes "rtl"

abbrev pub font_text : Font → Text
font_text inter = codes "inter"
font_text manrope = codes "manrope"
font_text system_font = codes "system"

abbrev pub collapsible_text : Collapsible → Text
collapsible_text offcanvas = codes "offcanvas"
collapsible_text icon = codes "icon"
collapsible_text no_collapse = codes "none"

abbrev pub variant_text : Variant → Text
variant_text inset = codes "inset"
variant_text sidebar = codes "sidebar"
variant_text floating = codes "floating"

abbrev pub fonts : List Text
fonts = font_text inter ∷ font_text manrope ∷ font_text system_font ∷ []

abbrev pub theme_cookie_name : Text
theme_cookie_name = codes "vite-ui-theme"

abbrev pub direction_cookie_name : Text
direction_cookie_name = codes "dir"

abbrev pub font_cookie_name : Text
font_cookie_name = codes "font"

abbrev pub collapsible_cookie_name : Text
collapsible_cookie_name = codes "layout_collapsible"

abbrev pub variant_cookie_name : Text
variant_cookie_name = codes "layout_variant"

abbrev pub sidebar_cookie_name : Text
sidebar_cookie_name = codes "sidebar_state"

-- A year, and 7 days, in seconds.
abbrev pub year : ℕ
year = 31536000

abbrev pub week : ℕ
week = 604800

pub record Settings : Type 0 where
  pub theme : Text
  pub dir : Text
  pub font : Text
  pub collapsible : Text
  pub variant : Text
  pub is_open : Bool

pub record Page : Type 0 where
  pub cookies : Cookies
  pub settings : Settings
  pub is_mobile : Bool
  pub open_mobile : Bool

-- `saved || fallback`
abbrev pub or_default : Option Text → Text → Text
or_default none fallback = fallback
or_default (some []) fallback = fallback
or_default (some (c ∷ t)) fallback = c ∷ t

-- `fonts.includes(saved) ? saved : fonts[0]`
abbrev pub font_of : Option Text → Text
font_of none = font_text inter
font_of (some t) = if includes fonts t then t else font_text inter

-- `saved !== 'false'`
abbrev pub open_of : Option Text → Bool
open_of none = true
open_of (some t) = not (t == codes "false")

-- What the providers start from; `main.tsx` gives no other default theme.
unfoldable pub initial_settings : Cookies → Settings
initial_settings jar = record {
  theme = or_default (get_cookie theme_cookie_name jar) (theme_text system);
  dir = or_default (get_cookie direction_cookie_name jar) (direction_text ltr);
  font = font_of (get_cookie font_cookie_name jar);
  collapsible = or_default (get_cookie collapsible_cookie_name jar) (collapsible_text icon);
  variant = or_default (get_cookie variant_cookie_name jar) (variant_text inset);
  is_open = open_of (get_cookie sidebar_cookie_name jar);
}

unfoldable pub set_theme : Theme → Page → Page
set_theme theme p = record p {
  cookies = set_cookie theme_cookie_name (theme_text theme) year p.cookies;
  settings = record p.settings { theme = theme_text theme };
}

unfoldable pub reset_theme : Page → Page
reset_theme p = record p {
  cookies = remove_cookie theme_cookie_name p.cookies;
  settings = record p.settings { theme = theme_text system };
}

unfoldable pub set_dir : Direction → Page → Page
set_dir dir p = record p {
  cookies = set_cookie direction_cookie_name (direction_text dir) year p.cookies;
  settings = record p.settings { dir = direction_text dir };
}

unfoldable pub reset_dir : Page → Page
reset_dir p = record p {
  cookies = remove_cookie direction_cookie_name p.cookies;
  settings = record p.settings { dir = direction_text ltr };
}

unfoldable pub set_font : Font → Page → Page
set_font font p = record p {
  cookies = set_cookie font_cookie_name (font_text font) year p.cookies;
  settings = record p.settings { font = font_text font };
}

unfoldable pub reset_font : Page → Page
reset_font p = record p {
  cookies = remove_cookie font_cookie_name p.cookies;
  settings = record p.settings { font = font_text inter };
}

unfoldable pub set_collapsible : Collapsible → Page → Page
set_collapsible collapsible p = record p {
  cookies = set_cookie collapsible_cookie_name (collapsible_text collapsible) week p.cookies;
  settings = record p.settings { collapsible = collapsible_text collapsible };
}

unfoldable pub set_variant : Variant → Page → Page
set_variant variant p = record p {
  cookies = set_cookie variant_cookie_name (variant_text variant) week p.cookies;
  settings = record p.settings { variant = variant_text variant };
}

unfoldable pub reset_layout : Page → Page
unfolding set_collapsible set_variant
reset_layout p = set_variant inset (set_collapsible icon p)

abbrev pub bool_text : Bool → Text
bool_text true = codes "true"
bool_text false = codes "false"

unfoldable pub set_open : Bool → Page → Page
set_open is_open p = record p {
  cookies = set_cookie sidebar_cookie_name (bool_text is_open) week p.cookies;
  settings = record p.settings { is_open = is_open };
}

unfoldable pub toggle_sidebar : Page → Page
unfolding set_open
toggle_sidebar p =
    if p.is_mobile
    then record p { open_mobile = not p.open_mobile }
    else set_open (not p.settings.is_open) p
