-- ===== src/Admin/Cookies.antt =====
-- src/Presentation/Admin/src/lib/cookies.ts
-- Texts are lists of character codes, as the parser walks them. The browser is not in the
-- repository: a jar is its cookies in their order, `document.cookie` reads it as the cookies
-- separated by "; ", and an assignment puts the value up to its first semicolon, without the white space
-- at its ends, or removes the cookie if `max-age` is 0. Cookies do not expire while a page is open. The
-- name loses the white space at its ends as well.
pub mod Split
pub mod Parts
pub mod Jar
mod Tests
use Prim.Native.Char.{code}
use pipeline_azure.Prelude.{
  ℕ, suc, zero, ◌-◌, ◌≡◌, refl, ◌↔◌, Bool, true, false, not, ◌&&◌, ◌||◌, Option, none, some, String,
  List, [], ◌∷◌, ◌++◌, arith, length, Eq, nat_eq, ◌==◌, if◌then◌else◌,
}

abbrev pub Text : Type 0
Text = List ℕ

abbrev pub codes : String → Text
codes String.[] = []
codes (String.◌∷◌ c s) = code c ∷ codes s

-- `s === t`
unfoldable pub text_same : Text → Text → Bool
text_same [] [] = true
text_same [] (d ∷ t) = false
text_same (c ∷ s) [] = false
text_same (c ∷ s) (d ∷ t) = c == d && text_same s t

pub text_same_iff : (s t : Text) → (text_same s t ≡ true) ↔ (s ≡ t)
unfolding text_same
text_same_iff [] [] = ground arith
text_same_iff [] (d ∷ t) = ground arith
text_same_iff (c ∷ s) [] = ground arith
text_same_iff (c ∷ s) (d ∷ t) = ground (arith, text_same_iff s t)

instance abbrev pub text_eq : Eq Text
text_eq = record { same = text_same; same_iff = text_same_iff }

abbrev pub semicolon : ℕ
semicolon = 59

abbrev pub space : ℕ
space = 32

abbrev pub equals : ℕ
equals = 61

unfoldable pub starts_with : Text → Text → Bool
starts_with s [] = true
starts_with [] (d ∷ t) = false
starts_with (c ∷ s) (d ∷ t) = c == d && starts_with s t

-- A character in front of the first part.
abbrev pub push : ℕ → List Text → List Text
push c [] = (c ∷ []) ∷ []
push c (part ∷ parts) = (c ∷ part) ∷ parts

-- `text.split(separator)`, when `skip` characters of a separator are still to be passed.
unfoldable pub split_from : Text → ℕ → Text → List Text
unfolding starts_with
split_from separator skip [] = [] ∷ []
split_from separator (suc skip) (c ∷ s) = split_from separator skip s
split_from separator zero (c ∷ s) =
    let found = split_from separator (length separator - 1) s in
    let further = split_from separator 0 s in
    if starts_with (c ∷ s) separator then [] ∷ found else push c further

-- `text.split(c).shift()`
unfoldable pub before : ℕ → Text → Text
before c [] = []
before c (d ∷ s) = let rest = before c s in if d == c then [] else d ∷ rest

abbrev is_white : ℕ → Bool
is_white c = c == 32 || c == 9

unfoldable trim_start : Text → Text
trim_start [] = []
trim_start (c ∷ s) = let rest = trim_start s in if is_white c then rest else c ∷ s

abbrev is_end : Text → Bool
is_end [] = true
is_end (c ∷ s) = false

unfoldable trim_end : Text → Text
trim_end [] = []
trim_end (c ∷ s) = let rest = trim_end s in if is_white c && is_end rest then [] else c ∷ rest

-- A text without the white space at its ends.
unfoldable pub trimmed : Text → Text
unfolding trim_start trim_end
trimmed s = trim_end (trim_start s)

-- What the browser keeps of the value in an assignment.
unfoldable pub cookie_value : Text → Text
unfolding before trimmed
cookie_value value = trimmed (before semicolon value)

-- `if (parts.length === 2) return parts.pop()?.split(';').shift()`
abbrev pub value_of_parts : List Text → Option Text
value_of_parts [] = none
value_of_parts (p ∷ []) = none
value_of_parts (p ∷ q ∷ []) = some (before semicolon q)
value_of_parts (p ∷ q ∷ r ∷ parts) = none

abbrev pub Cookies : Type 0
Cookies = List (Text × Text)

unfoldable pub document_cookie : Cookies → Text
document_cookie [] = []
document_cookie ((name, value) ∷ []) = name ++ equals ∷ value
document_cookie ((name, value) ∷ more ∷ jar) =
    (name ++ equals ∷ value) ++ semicolon ∷ space ∷ document_cookie (more ∷ jar)

unfoldable pub get_cookie : Text → Cookies → Option Text
unfolding split_from document_cookie
get_cookie name jar = value_of_parts (
    split_from (semicolon ∷ space ∷ name ++ equals ∷ []) 0
      (semicolon ∷ space ∷ document_cookie jar))

unfoldable pub drop_cookie : Text → Cookies → Cookies
drop_cookie name [] = []
drop_cookie name ((n, v) ∷ jar) =
    let rest = drop_cookie name jar in if n == name then rest else (n, v) ∷ rest

unfoldable pub put_cookie : Text → Text → Cookies → Cookies
put_cookie name value [] = (name, value) ∷ []
put_cookie name value ((n, v) ∷ jar) =
    let rest = put_cookie name value jar in if n == name then (n, value) ∷ jar else (n, v) ∷ rest

-- The browser's `document.cookie = …; path=/; max-age=…`
unfoldable assign_cookie : Text → Text → ℕ → Cookies → Cookies
unfolding cookie_value trimmed drop_cookie put_cookie
assign_cookie name value max_age jar =
    if max_age == 0
    then drop_cookie (trimmed name) jar
    else put_cookie (trimmed name) (cookie_value value) jar

unfoldable pub set_cookie : Text → Text → ℕ → Cookies → Cookies
unfolding assign_cookie
set_cookie name value max_age jar = assign_cookie name value max_age jar

unfoldable pub remove_cookie : Text → Cookies → Cookies
unfolding assign_cookie
remove_cookie name jar = assign_cookie name [] 0 jar

-- 7 days
abbrev pub default_max_age : ℕ
default_max_age = 604800
