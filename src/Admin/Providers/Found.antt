-- ===== src/Admin/Providers/Found.antt =====
-- The providers of the admin panel: the settings that are found in cookies.
use pipeline_azure.Prelude.{
  ℕ, ◌≡◌, refl, Bool, true, false, Option, none, some, nat_eq, ◌==◌, includes, if◌then◌else◌,
}
use pipeline_azure.Admin.Cookies.{
  Text, text_eq, text_same, cookie_value, trimmed, Cookies, get_cookie, set_cookie, remove_cookie,
}
use pipeline_azure.Admin.Cookies.Split.{free, IsName, IsClean}
use pipeline_azure.Admin.Cookies.Jar.{get_cookie-set_cookie, get_cookie-remove_cookie}
use pipeline_azure.Admin.Providers.{
  Theme, dark, light, system, Direction, ltr, rtl, Font, inter, manrope, system_font, Collapsible,
  offcanvas, icon, no_collapse, Variant, inset, sidebar, floating, theme_text, direction_text,
  font_text, collapsible_text, variant_text, bool_text, theme_cookie_name, direction_cookie_name,
  font_cookie_name, collapsible_cookie_name, variant_cookie_name, sidebar_cookie_name, Settings,
  or_default, font_of, open_of, initial_settings,
}

pub theme-IsName : IsName theme_cookie_name
unfolding IsName free trimmed
theme-IsName = (refl, refl, refl)

pub dir-IsName : IsName direction_cookie_name
unfolding IsName free trimmed
dir-IsName = (refl, refl, refl)

pub font-IsName : IsName font_cookie_name
unfolding IsName free trimmed
font-IsName = (refl, refl, refl)

pub collapsible-IsName : IsName collapsible_cookie_name
unfolding IsName free trimmed
collapsible-IsName = (refl, refl, refl)

pub variant-IsName : IsName variant_cookie_name
unfolding IsName free trimmed
variant-IsName = (refl, refl, refl)

pub sidebar-IsName : IsName sidebar_cookie_name
unfolding IsName free trimmed
sidebar-IsName = (refl, refl, refl)

-- The settings that a reading of the cookies gives.
abbrev pub read_all : (Text → Option Text) → Settings
read_all read = record {
  theme = or_default (read theme_cookie_name) (theme_text system);
  dir = or_default (read direction_cookie_name) (direction_text ltr);
  font = font_of (read font_cookie_name);
  collapsible = or_default (read collapsible_cookie_name) (collapsible_text icon);
  variant = or_default (read variant_cookie_name) (variant_text inset);
  is_open = open_of (read sidebar_cookie_name);
}

initial_settings-read_all :
    (jar : Cookies) (read : Text → Option Text)
    → ((j : Text) → IsName j → get_cookie j jar ≡ read j)
    → initial_settings jar ≡ read_all read
unfolding initial_settings
initial_settings-read_all jar read h =
    rw
      (
        h theme_cookie_name theme-IsName,
        h direction_cookie_name dir-IsName,
        h font_cookie_name font-IsName,
        h collapsible_cookie_name collapsible-IsName,
        h variant_cookie_name variant-IsName,
        h sidebar_cookie_name sidebar-IsName,
      )
      refl

module _ (n : Text) (jar : Cookies) (name : IsName n) (clean : IsClean jar) where
  pub initial_settings-set_cookie :
      (v : Text) (max_age : ℕ)
      → (max_age == 0) ≡ false
      → initial_settings (set_cookie n v max_age jar)
        ≡ read_all (λ j. if n == j then some (cookie_value v) else get_cookie j jar)
  initial_settings-set_cookie v max_age kept =
      initial_settings-read_all _ _
        (λ j j_name. get_cookie-set_cookie n jar name clean j v max_age j_name kept)

  pub initial_settings-remove_cookie :
      initial_settings (remove_cookie n jar)
      ≡ read_all (λ j. if n == j then none else get_cookie j jar)
  initial_settings-remove_cookie =
      initial_settings-read_all _ _ (get_cookie-remove_cookie n jar name clean)

-- The text of a choice is read as it was set.
pub theme_text-read :
    (t : Theme) (d : Text) → or_default (some (cookie_value (theme_text t))) d ≡ theme_text t
unfolding cookie_value
theme_text-read dark d = refl
theme_text-read light d = refl
theme_text-read system d = refl

pub direction_text-read :
    (t : Direction) (d : Text)
    → or_default (some (cookie_value (direction_text t))) d ≡ direction_text t
unfolding cookie_value
direction_text-read ltr d = refl
direction_text-read rtl d = refl

pub collapsible_text-read :
    (t : Collapsible) (d : Text)
    → or_default (some (cookie_value (collapsible_text t))) d ≡ collapsible_text t
unfolding cookie_value
collapsible_text-read offcanvas d = refl
collapsible_text-read icon d = refl
collapsible_text-read no_collapse d = refl

pub variant_text-read :
    (t : Variant) (d : Text) → or_default (some (cookie_value (variant_text t))) d ≡ variant_text t
unfolding cookie_value
variant_text-read inset d = refl
variant_text-read sidebar d = refl
variant_text-read floating d = refl

pub font_text-read : (t : Font) → font_of (some (cookie_value (font_text t))) ≡ font_text t
unfolding cookie_value includes text_same
font_text-read inter = refl
font_text-read manrope = refl
font_text-read system_font = refl

pub bool_text-read : (b : Bool) → open_of (some (cookie_value (bool_text b))) ≡ b
unfolding cookie_value text_same
bool_text-read true = refl
bool_text-read false = refl
