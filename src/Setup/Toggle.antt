-- ===== src/Setup/Toggle.antt =====
-- static/websetup/websetup.js: the components `two-way-toggle`, `input-field` and `checkbox-field`, and
-- the removal of a variable.
use flamenco_manager.Common.{String, Bool, List, [], ◌∷◌, if◌then◌else◌, ◌==◌}
use flamenco_manager.Common.Decimal.{join}

pub record Toggle : Type 0 where
  pub name : String
  pub value_left : String
  pub value_right : String
  pub value : String

-- `toggleID`.
unfoldable pub toggle_id : Toggle → String
unfolding join
toggle_id t = join ("two_way_toggle_" ∷ t.name ∷ [])

-- `isChecked`.
unfoldable pub is_checked : Toggle → Bool
is_checked t = t.value == t.value_right

-- `onInput`: the value that is emitted, which the parent sets.
unfoldable pub on_input : Bool → Toggle → String
on_input checked t = if checked then t.value_right else t.value_left

-- `restore_title` of an input field and of a checkbox.
unfoldable pub input_restore_title : String → String
unfolding join
input_restore_title original_value = join ("Restore Saved Value: " ∷ original_value ∷ [])

unfoldable pub checkbox_restore_title : Bool → String
unfolding join
checkbox_restore_title original_value =
    join ("Restore Saved Value: " ∷ (if original_value then "true" else "false") ∷ [])

unfoldable pub delete_key : {A : Type 0} → String → List (String × A) → List (String × A)
delete_key name [] = []
delete_key name ((k, v) ∷ rest) =
    if k == name then delete_key name rest else (k, v) ∷ delete_key name rest

-- `removeVariable` of the `variables-editor`: the variables that stay and the notification.
unfoldable pub remove_variable :
    {A : Type 0} → String → List (String × A) → List (String × A) × String
unfolding delete_key join
remove_variable name variables = (delete_key name variables, join ("Deleted variable " ∷ name ∷ []))
