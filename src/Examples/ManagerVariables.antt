-- ===== src/Examples/ManagerVariables.antt =====
-- The manager's variables at concrete inputs.
use flamenco_manager.Common.{ℕ, String, ◌≡◌, ◌⊎◌, inl, inr, refl, none, some, List, [], ◌∷◌, ◌++◌}
use flamenco_manager.Common.StringSet.{delete, add}
use flamenco_manager.Setup.Variables.{
  Editor, props_for_new_value, props, platforms_left, take_values, first_left,
}
use flamenco_manager.Manager.Variables.{
  Variable, look_up, construct_variable_lookup_table, text_of, is_wildcard,
}
use flamenco_manager.Manager.Variables.Table.{last_value}
use flamenco_manager.Manager.Variables.Texts.{
  Shows, last_holding, construct_variable_lookup_table-Shows,
}
use flamenco_manager.Manager.Variables.Checked.{
  check_variables, check_variables-look_up, check_variable, check_value, merge_platforms,
  with_audience, is_platformless, no_platforms, variables_error, variable_error, values_error,
  missing_variable_platform,
}
use flamenco_manager.Manager.Variables.Proposed.{
  sent_variable, proposed, props_for_new_value-look_up,
}

-- "/a/".
abbrev path : List ℕ
path = b'/' ∷ b'a' ∷ b'/' ∷ []

abbrev render : Variable
render = record {
  name = "render";
  direction = "twoway";
  values =
      record { audience = "all"; platform = "linux"; platforms = []; value = path }
      ∷ record { audience = "users"; platform = ""; platforms = "windows" ∷ []; value = b'C' ∷ [] }
      ∷ [];
}

abbrev ffmpeg : Variable
ffmpeg = record { name = "ffmpeg"; direction = "oneway"; values = [] }

construct_variable_lookup_table-Shows_example :
    Shows "twoway"
      (last_holding "workers" "linux" render.values none)
      (look_up "workers" "linux" "render" (construct_variable_lookup_table (ffmpeg ∷ render ∷ [])))
construct_variable_lookup_table-Shows_example =
    construct_variable_lookup_table-Shows "workers" "linux" (ffmpeg ∷ []) [] render (inr refl)
      (refl, tt) tt

-- The last slash is left out.
looked_up : last_value "twoway" "workers" "linux" render.values none ≡ some (b'/' ∷ b'a' ∷ [])
unfolding last_value text_of is_wildcard
looked_up = refl

-- An editor with one value, for users on Linux.
abbrev editor : Editor
editor = record {
  var_name = "blender";
  direction = "oneway";
  values =
      record { value = "b"; audience = some "users"; platform = some "linux"; platforms = [] } ∷ [];
  all_audience = "separate";
}

abbrev bytes : String → List ℕ
bytes s = []

proposes : props_for_new_value editor ≡ props "users" "darwin"
unfolding props_for_new_value platforms_left take_values first_left delete add
proposes = refl

props_for_new_value-look_up_example :
    (audience : String) × ((audience ≡ "users") ⊎ (audience ≡ "workers"))
    × (look_up audience "darwin" "blender"
          (construct_variable_lookup_table (ffmpeg ∷ sent_variable bytes editor editor.values ∷ []))
        ≡ none)
    × (look_up audience "darwin" "blender" (
          construct_variable_lookup_table (
            ffmpeg
            ∷ sent_variable bytes editor (editor.values ++ proposed "users" "darwin" ∷ [])
            ∷ []))
        ≡ some (text_of "oneway" []))
props_for_new_value-look_up_example =
    props_for_new_value-look_up bytes editor "users" "darwin" (ffmpeg ∷ []) [] proposes
      ((refl, inr ("users", refl)), tt) (refl, tt) tt

-- A value with a platform and platforms, for no audience, and one without platforms.
abbrev tools : Variable
tools = record {
  name = "tools";
  direction = "oneway";
  values =
      record { audience = ""; platform = "linux"; platforms = "darwin" ∷ []; value = path }
      ∷ record { audience = "users"; platform = ""; platforms = []; value = b'C' ∷ [] }
      ∷ [];
}

check_variables-look_up_example :
    look_up "users" "linux" "tools"
      (construct_variable_lookup_table (check_variables (ffmpeg ∷ tools ∷ render ∷ [])).0)
    ≡ look_up "users" "linux" "tools"
        (construct_variable_lookup_table (ffmpeg ∷ tools ∷ render ∷ []))
check_variables-look_up_example =
    check_variables-look_up "users" "linux" (ffmpeg ∷ []) (render ∷ []) tools (inl refl) (refl, tt)
      (refl, tt)

checked : check_variables (tools ∷ []) ≡ (
  (record {
    name = "tools";
    direction = "oneway";
    values =
        record {
          audience = "all";
          platform = "";
          platforms = "darwin" ∷ "linux" ∷ [];
          value = path;
        }
        ∷ record { audience = "users"; platform = ""; platforms = []; value = b'C' ∷ [] }
        ∷ [];
  }
      ∷ []),
  some missing_variable_platform,
)
unfolding check_variables check_variable check_value merge_platforms with_audience is_platformless
    no_platforms variables_error variable_error values_error
checked = refl
