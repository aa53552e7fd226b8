-- ===== src/Admin/Toolbar/Tests.antt =====
-- The toolbar of the selected rows with three buttons.
use pipeline_azure.Prelude.{◌≡◌, refl, true, false, none, some, List, [], ◌∷◌}
use pipeline_azure.Admin.Toolbar.{
  Toolbar, Place, Key, arrow_right, arrow_left, escape, handle_key_down, press, run,
}

abbrev toolbar : Toolbar
toolbar = record { buttons = 3; focus = some 0; selected_count = 2; prevented = 0 }

abbrev row : Place
row = record {
  target_is_trigger = false;
  active_is_trigger = false;
  target_in_trigger = false;
  active_in_trigger = false;
  active_in_content = false;
  target_in_content = false;
}

abbrev dropdown : Place
dropdown = record row { active_in_content = true }

abbrev keys : List Key
keys =
    arrow_left
    ∷ escape dropdown
    ∷ arrow_left
    ∷ arrow_right
    ∷ arrow_right
    ∷ arrow_right
    ∷ escape row
    ∷ arrow_right
    ∷ []

keys_example :
    run keys toolbar ≡ record { buttons = 3; focus = some 1; selected_count = 0; prevented = 6 }
unfolding run press handle_key_down
keys_example = refl

-- If no button has the focus, the left arrow moves it nowhere, and the right arrow to the first button.
left_example :
    ((run (arrow_left ∷ []) (record toolbar { focus = none })).focus ≡ none)
    × ((run (arrow_right ∷ []) (record toolbar { focus = none })).focus ≡ some 0)
unfolding run press handle_key_down
left_example = (refl, refl)
