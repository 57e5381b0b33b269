-- ===== src/Setup/Predefined.antt =====
-- static/websetup/websetup.js: the variables with a fixed meaning, and how a variable is presented.
use Prim.Native.Char.{code}
use flamenco_manager.Common.{
  String, Bool, true, false, not, Option, none, some, List, [], ◌∷◌, if◌then◌else◌, nat_eq, ◌==◌,
}

pub record Predefined : Type 0 where
  pub direction : String
  pub audience : String
  pub nice_name : String
  pub description : String

-- `PREDEFINED_VARIABLES`.
unfoldable pub predefined_variables : List (String × Predefined)
predefined_variables =
    (
      "blender",
      record {
        direction = "oneway";
        audience = "workers";
        nice_name = "Blender";
        description = "Location of the Blender executable on the workers.";
      },
    )
    ∷ (
      "ffmpeg",
      record {
        direction = "oneway";
        audience = "workers";
        nice_name = "FFmpeg";
        description = "Location of the FFmpeg executable on the workers.";
      },
    )
    ∷ (
      "shaman",
      record {
        direction = "oneway";
        audience = "users";
        nice_name = "Shaman";
        description =
            "Location of the Shaman checkout directory for users.<br>Useful when Flamenco Manager and users are on the same infrasturcture.";
      },
    )
    ∷ []

unfoldable pub find_in : String → List (String × Predefined) → Option Predefined
find_in name [] = none
find_in name ((k, v) ∷ rest) = if k == name then some v else find_in name rest

-- `PREDEFINED_VARIABLES.hasOwnProperty(name)` with the value there.
unfoldable pub find_predefined : String → Option Predefined
unfolding predefined_variables find_in
find_predefined name = find_in name predefined_variables

-- `isPredefined`.
unfoldable pub is_predefined : String → Bool
unfolding find_predefined
is_predefined name = elim (find_predefined name) [ none ↦ false | some v ↦ true ]

-- `showRemoveButton`.
unfoldable pub show_remove_button : String → Bool
unfolding is_predefined
show_remove_button name = not (is_predefined name)

-- `varName.replace('_', ' ')`: the first underscore only.
unfoldable pub replace_underscore : String → String
replace_underscore String.[] = ""
replace_underscore (String.◌∷◌ c s) =
    let rest = replace_underscore s in
    if nat_eq (code c) b'_' then String.◌∷◌ " " s else String.◌∷◌ c rest

-- `niceVariableName`.
unfoldable pub nice_variable_name : String → String
unfolding find_predefined replace_underscore
nice_variable_name name = elim (find_predefined name) [
  | none ↦ replace_underscore name
  | some v ↦ v.nice_name
]

-- `variableDescription`.
unfoldable pub variable_description : String → String
unfolding find_predefined
variable_description name = elim (find_predefined name) [ none ↦ "" | some v ↦ v.description ]
