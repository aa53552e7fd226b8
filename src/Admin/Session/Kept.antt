-- ===== src/Admin/Session/Kept.antt =====
-- auth-store.ts: the cookies beside the store, by each of the operations on a token.
use mathlib.Core.Path.{subst}
use pipeline_azure.Prelude.{◌≡◌, refl, sym, ◌∙◌, ap, none, some, String, Option}
use pipeline_azure.Json.{Json}
use pipeline_azure.Admin.Cookies.{Text, text_eq, text_same, cookie_value, trimmed, get_cookie}
use pipeline_azure.Admin.Cookies.Split.{free, IsName, IsClean}
use pipeline_azure.Admin.Cookies.Jar.{
  set_cookie-IsClean, remove_cookie-IsClean, get_cookie-set_cookie, get_cookie-remove_cookie,
}
use pipeline_azure.Admin.Session.{
  Panel, access_name, refresh_name, set_access_token, set_refresh_token, reset_access_token,
  reset_refresh_token, from_cookie,
}

access_name-IsName : IsName access_name
unfolding IsName free trimmed
access_name-IsName = (refl, refl, refl)

refresh_name-IsName : IsName refresh_name
unfolding IsName free trimmed
refresh_name-IsName = (refl, refl, refl)

module _ (json : Json Text String) where
  -- The browser keeps the JSON of a token whole: it holds no ";", and has its quotes at both ends.
  abbrev pub IsPlain : String → Type 0
  IsPlain t = cookie_value (json.stringify t) ≡ json.stringify t

  abbrev pub AllPlain : Option String → Type 0
  AllPlain none = Unit {0}
  AllPlain (some t) = IsPlain t

  -- The cookies can be read, and hold the two tokens of the store.
  pub record Kept (p : Panel) : Type 0 where
    pub clean : IsClean p.cookies
    pub access : from_cookie json (get_cookie access_name p.cookies) ≡ some p.store.access_token
    pub refresh : from_cookie json (get_cookie refresh_name p.cookies) ≡ some p.store.refresh_token

  from_cookie-stringify :
      (t : String) → IsPlain t → from_cookie json (some (cookie_value (json.stringify t))) ≡ some t
  from_cookie-stringify t plain = rw (plain, json.stringify-is_blank t) (json.parse-stringify t)

  pub set_access_token-Kept :
      (t : String) (p : Panel) → IsPlain t → Kept p → Kept (set_access_token json t p)
  unfolding set_access_token text_same
  set_access_token-Kept t p plain k = record {
    clean = set_cookie-IsClean access_name p.cookies access_name-IsName k.clean _ _;
    access =
        ap (from_cookie json) (
          get_cookie-set_cookie access_name p.cookies access_name-IsName k.clean access_name _ _
            access_name-IsName refl)
        ∙ from_cookie-stringify t plain;
    refresh =
        ap (from_cookie json) (
          get_cookie-set_cookie access_name p.cookies access_name-IsName k.clean refresh_name _ _
            refresh_name-IsName refl)
        ∙ k.refresh;
  }

  pub set_refresh_token-Kept :
      (t : String) (p : Panel) → IsPlain t → Kept p → Kept (set_refresh_token json t p)
  unfolding set_refresh_token text_same
  set_refresh_token-Kept t p plain k = record {
    clean = set_cookie-IsClean refresh_name p.cookies refresh_name-IsName k.clean _ _;
    access =
        ap (from_cookie json) (
          get_cookie-set_cookie refresh_name p.cookies refresh_name-IsName k.clean access_name _ _
            access_name-IsName refl)
        ∙ k.access;
    refresh =
        ap (from_cookie json) (
          get_cookie-set_cookie refresh_name p.cookies refresh_name-IsName k.clean refresh_name _ _
            refresh_name-IsName refl)
        ∙ from_cookie-stringify t plain;
  }

  pub reset_access_token-Kept : (p : Panel) → Kept p → Kept (reset_access_token p)
  unfolding reset_access_token text_same
  reset_access_token-Kept p k = record {
    clean = remove_cookie-IsClean access_name p.cookies access_name-IsName k.clean;
    access = ap (from_cookie json) (
        get_cookie-remove_cookie access_name p.cookies access_name-IsName k.clean access_name
          access_name-IsName);
    refresh =
        ap (from_cookie json) (
          get_cookie-remove_cookie access_name p.cookies access_name-IsName k.clean refresh_name
            refresh_name-IsName)
        ∙ k.refresh;
  }

  pub reset_refresh_token-Kept : (p : Panel) → Kept p → Kept (reset_refresh_token p)
  unfolding reset_refresh_token text_same
  reset_refresh_token-Kept p k = record {
    clean = remove_cookie-IsClean refresh_name p.cookies refresh_name-IsName k.clean;
    access =
        ap (from_cookie json) (
          get_cookie-remove_cookie refresh_name p.cookies refresh_name-IsName k.clean access_name
            access_name-IsName)
        ∙ k.access;
    refresh = ap (from_cookie json) (
        get_cookie-remove_cookie refresh_name p.cookies refresh_name-IsName k.clean refresh_name
          refresh_name-IsName);
  }

  -- What a panel keeps does not depend on its user, its `localStorage` and its page.
  pub Kept-same :
      (p p' : Panel)
      → Kept p
      → p'.cookies ≡ p.cookies
      → p'.store.access_token ≡ p.store.access_token
      → p'.store.refresh_token ≡ p.store.refresh_token
      → Kept p'
  Kept-same p p' k c a r = record {
    clean = subst IsClean (sym c) k.clean;
    access = rw (c, a) k.access;
    refresh = rw (c, r) k.refresh;
  }
