-- ===== src/Admin/Toolbar.antt =====
-- src/Presentation/Admin/src/components/data-table/bulk-actions.tsx
-- The toolbar of the selected rows: the keys in it, which move the focus over its buttons or clear the
-- selection. The keys are the arrows, Home, End and Escape: every other key is left to the browser, which
-- may move the focus or press the button with it, and is not modelled. A button is its place among those that `querySelectorAll` finds, and each can take the
-- focus.
pub mod Focus
mod Tests
use Prim.Native.Nat.{◌%◌}
use pipeline_azure.Prelude.{
  ℕ, suc, ◌-◌, ltb, nat_eq, ◌==◌, Bool, true, ◌||◌, Option, none, some, List, [], ◌∷◌,
  if◌then◌else◌,
}

-- `focus` is the place of the active element, unless it is no button of the toolbar, and
-- `prevented` counts the calls of `event.preventDefault`.
pub record Toolbar : Type 0 where
  pub buttons : ℕ
  pub focus : Option ℕ
  pub selected_count : ℕ
  pub prevented : ℕ

-- Where a key was pressed: what the target and the active element are, or stand in.
pub record Place : Type 0 where
  pub target_is_trigger : Bool
  pub active_is_trigger : Bool
  pub target_in_trigger : Bool
  pub active_in_trigger : Bool
  pub active_in_content : Bool
  pub target_in_content : Bool

pub data Key : Type 0 where
  arrow_right arrow_left home end_key : Key
  escape : Place → Key

unfoldable pub is_from_dropdown_trigger : Place → Bool
is_from_dropdown_trigger p =
    p.target_is_trigger || p.active_is_trigger || p.target_in_trigger || p.active_in_trigger

unfoldable pub is_from_dropdown_content : Place → Bool
is_from_dropdown_content p = p.active_in_content || p.target_in_content

-- `buttons[index]?.focus()`
abbrev pub focus_on : ℕ → Toolbar → Toolbar
focus_on index t = if ltb index t.buttons then record t { focus = some index } else t

abbrev pub prevent_default : Toolbar → Toolbar
prevent_default t = record t { prevented = suc t.prevented }

-- `findIndex` gives -1 if no button has the focus; the index before that is -2.
abbrev pub next_index : ℕ → Option ℕ → ℕ
next_index buttons none = 0 % buttons
next_index buttons (some i) = suc i % buttons

abbrev pub focus_before : Option ℕ → Toolbar → Toolbar
focus_before none t = t
focus_before (some i) t = focus_on (if i == 0 then t.buttons - 1 else i - 1) t

abbrev pub handle_clear_selection : Toolbar → Toolbar
handle_clear_selection t = record t { selected_count = 0 }

unfoldable pub handle_key_down : Key → Toolbar → Toolbar
unfolding is_from_dropdown_trigger is_from_dropdown_content
handle_key_down arrow_right t = focus_on (next_index t.buttons t.focus) (prevent_default t)
handle_key_down arrow_left t = focus_before t.focus (prevent_default t)
handle_key_down home t = focus_on 0 (prevent_default t)
handle_key_down end_key t = focus_on (t.buttons - 1) (prevent_default t)
handle_key_down (escape place) t =
    if is_from_dropdown_trigger place || is_from_dropdown_content place
    then t
    else handle_clear_selection (prevent_default t)

-- Without selected rows there is no toolbar, and a key does not reach it.
unfoldable pub press : Key → Toolbar → Toolbar
unfolding handle_key_down
press key t = if t.selected_count == 0 then t else handle_key_down key t

unfoldable pub run : List Key → Toolbar → Toolbar
unfolding press
run [] t = t
run (key ∷ keys) t = run keys (press key t)
