-- ===== src/App/Register.antt =====
-- src/Presentation/App/src/presentation/features/Auth/screens/RegisterScreen.tsx
-- The request that the form makes. Texts are lists of character codes, and what `trim` takes for
-- white space is a parameter.
pub mod Names
mod Tests
use pipeline_azure.Prelude.{
  ℕ, Bool, true, false, ◌&&◌, List, [], ◌∷◌, ◌++◌, nat_eq, ◌==◌, if◌then◌else◌,
}

abbrev pub Text : Type 0
Text = List ℕ

abbrev pub space : ℕ
space = 32

pub record RegisterFormData : Type 0 where
  pub name : Text
  pub email : Text
  pub password : Text

pub record Request : Type 0 where
  pub email : Text
  pub password : Text
  pub first_name : Text
  pub last_name : Text

-- A character in front of the first part.
abbrev pub push : ℕ → List Text → List Text
push c [] = (c ∷ []) ∷ []
push c (part ∷ parts) = (c ∷ part) ∷ parts

-- `text.split(' ')` and `parts.join(' ')`
unfoldable pub split : Text → List Text
split [] = [] ∷ []
split (c ∷ s) = let parts = split s in if c == space then [] ∷ parts else push c parts

abbrev pub join : List Text → Text
join [] = []
join (part ∷ []) = part
join (part ∷ next ∷ parts) = part ++ space ∷ join (next ∷ parts)

abbrev pub is_empty : Text → Bool
is_empty [] = true
is_empty (c ∷ s) = false

-- `nameParts[0] || ''`
abbrev pub first_part : List Text → Text
first_part [] = []
first_part (part ∷ parts) = part

-- `nameParts.slice(1)`
abbrev pub later_parts : List Text → List Text
later_parts [] = []
later_parts (part ∷ parts) = parts

-- `text || fallback`
abbrev pub or_else : Text → Text → Text
or_else [] fallback = fallback
or_else (c ∷ s) fallback = c ∷ s

module _ (is_space : ℕ → Bool) where
  unfoldable pub trim_start : Text → Text
  trim_start [] = []
  trim_start (c ∷ s) = let rest = trim_start s in if is_space c then rest else c ∷ s

  unfoldable pub trim_end : Text → Text
  trim_end [] = []
  trim_end (c ∷ s) = let rest = trim_end s in if is_empty rest && is_space c then [] else c ∷ rest

  unfoldable pub trim : Text → Text
  unfolding trim_start trim_end
  trim s = trim_end (trim_start s)

  unfoldable pub on_submit : RegisterFormData → Request
  unfolding trim split
  on_submit form =
      let name_parts = split (trim form.name) in
      record {
        email = trim form.email;
        password = form.password;
        first_name = first_part name_parts;
        last_name = or_else (join (later_parts name_parts)) (first_part name_parts);
      }
