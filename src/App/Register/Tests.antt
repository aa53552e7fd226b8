-- ===== src/App/Register/Tests.antt =====
-- RegisterScreen on concrete names.
use pipeline_azure.Prelude.{◌≡◌, refl, ℕ, Bool, [], ◌∷◌, ◌++◌, nat_eq, ◌==◌, if◌then◌else◌}
use pipeline_azure.App.Register.{
  space, RegisterFormData, on_submit, split, trim, trim_start, trim_end,
}
use pipeline_azure.App.Register.Names.{is_word, full_name, full_name-on_submit}

abbrev blank : ℕ → Bool
blank c = c == 32

-- " Al de B "
abbrev form : RegisterFormData
form = record {
  name = 32 ∷ 65 ∷ 108 ∷ 32 ∷ 100 ∷ 101 ∷ 32 ∷ 66 ∷ 32 ∷ [];
  email = 97 ∷ 64 ∷ 98 ∷ 32 ∷ [];
  password = 112 ∷ 32 ∷ [];
}

on_submit_example : on_submit blank form ≡ record {
  email = 97 ∷ 64 ∷ 98 ∷ [];
  password = 112 ∷ 32 ∷ [];
  first_name = 65 ∷ 108 ∷ [];
  last_name = 100 ∷ 101 ∷ 32 ∷ 66 ∷ [];
}
unfolding on_submit trim trim_start trim_end split
on_submit_example = refl

full_name-on_submit_example :
    let name = trim blank form.name in
    full_name (on_submit blank form) ≡ (if is_word name then name ++ space ∷ name else name)
full_name-on_submit_example = full_name-on_submit blank refl form
