-- ===== src/Setup/Variables.antt =====
-- static/websetup/websetup.js: the `variables-editor` and `variable-editor` components.
pub mod Coverage
pub mod NewValue
pub mod Leaves
pub mod Adding
pub mod Inherited
pub mod Cleanup
use flamenco_manager.Common.{
  ℕ, zero, suc, String, Bool, true, false, not, ◌&&◌, ◌||◌, Option, none, some, List, [], ◌∷◌, ◌++◌,
  map, if◌then◌else◌, ◌==◌,
}
use flamenco_manager.Common.StringSet.{has, delete, of_array}

-- One value of a variable; an undefined audience or platform is `none`. The page never reads the list of
-- platforms that a value from the manager may have, and an undefined one is empty.
pub record VarValue : Type 0 where
  pub value : String
  pub audience : Option String
  pub platform : Option String
  pub platforms : List String

-- The `variable-editor` component: the values of its `varDef` and its own `allAudience`.
pub record Editor : Type 0 where
  pub var_name : String
  pub direction : String
  pub values : List VarValue
  pub all_audience : String

-- `EMPTY_VARIABLE`.
abbrev pub empty_variable : VarValue
empty_variable = record { value = ""; audience = some ""; platform = some ""; platforms = [] }

-- `SUPPORTED_PLATFORMS`.
abbrev pub supported_platforms : List String
supported_platforms = "linux" ∷ "darwin" ∷ "windows" ∷ []

-- `audience == 'all' || audience == '' || typeof audience == 'undefined'`.
unfoldable pub for_all : Option String → Bool
for_all none = true
for_all (some a) = a == "all" || a == ""

unfoldable pub every_for_all : List VarValue → Bool
unfolding for_all
every_for_all [] = true
every_for_all (v ∷ vs) = for_all v.audience && every_for_all vs

-- `created`: the editor of a variable. Its `cleanupAudiences` then listens to the event bus.
unfoldable pub created : String → String → List VarValue → Editor
unfolding every_for_all
created var_name direction values = record {
  var_name = var_name;
  direction = direction;
  values = values;
  all_audience = if every_for_all values then "all" else "separate";
}

-- `showAudienceRow`.
unfoldable pub show_audience_row : Editor → Bool
show_audience_row e = e.all_audience == "separate"

-- `platformsLeft`.
pub record PlatformsLeft : Type 0 where
  pub users : List String
  pub workers : List String

-- `delete` of a platform that may be undefined: the set has only texts.
unfoldable pub delete_text : List String → Option String → List String
delete_text s none = s
delete_text s (some p) = delete s p

-- The names that every JavaScript object has from `Object.prototype`.
abbrev pub inherited_names : List String
inherited_names =
    "constructor" ∷ "__defineGetter__" ∷ "__defineSetter__" ∷ "hasOwnProperty" ∷ "__lookupGetter__"
    ∷ "__lookupSetter__" ∷ "isPrototypeOf" ∷ "propertyIsEnumerable" ∷ "toString" ∷ "valueOf"
    ∷ "__proto__" ∷ "toLocaleString" ∷ []

-- `platformsLeft[value.audience].delete(value.platform)`, or the warning for an unknown audience.
-- `none` is the TypeError where the name is inherited, since what is found there has no `delete`.
unfoldable pub delete_platform :
    Option String → Option String → PlatformsLeft → Option PlatformsLeft
unfolding delete_text
delete_platform none platform left = some left
delete_platform (some a) platform left =
    if a == "users"
    then some (record left { users = delete_text left.users platform })
    else if a == "workers"
    then some (record left { workers = delete_text left.workers platform })
    else if has inherited_names a
    then none
    else some left

-- `value.audience == "all" || value.audience == ""`.
unfoldable pub names_all : Option String → Bool
names_all none = false
names_all (some a) = a == "all" || a == ""

-- One round of the loop over the values.
unfoldable pub take_value : Bool → VarValue → PlatformsLeft → Option PlatformsLeft
unfolding names_all delete_platform delete_text
take_value is_all_audience v left =
    if is_all_audience || names_all v.audience
    then some (record {
      users = delete_text left.users v.platform;
      workers = delete_text left.workers v.platform;
    })
    else delete_platform v.audience v.platform left

unfoldable pub take_values : Bool → List VarValue → PlatformsLeft → Option PlatformsLeft
unfolding take_value
take_values is_all_audience [] left = some left
take_values is_all_audience (v ∷ vs) left = elim (take_value is_all_audience v left) [
  | none ↦ none
  | some left' ↦ take_values is_all_audience vs left'
]

-- What `propsForNewValue` gives; `type_error` is the exception.
pub data NewProps : Type 0 where
  type_error null : NewProps
  props : (audience platform : String) → NewProps

-- The first audience and platform that are left.
unfoldable pub first_left : Bool → List String → List String → NewProps
first_left is_all_audience (p ∷ ps) workers = props (if is_all_audience then "all" else "users") p
first_left is_all_audience [] (p ∷ ps) = props (if is_all_audience then "all" else "workers") p
first_left is_all_audience [] [] = null

-- The sets that the loop starts with.
unfoldable pub every_platform : PlatformsLeft
unfolding of_array
every_platform = record {
  users = of_array supported_platforms;
  workers = of_array supported_platforms;
}

-- The loop of `propsForNewValue`.
unfoldable pub platforms_left : Editor → Option PlatformsLeft
unfolding every_platform
platforms_left e = take_values (e.all_audience == "all") e.values every_platform

-- `propsForNewValue`.
unfoldable pub props_for_new_value : Editor → NewProps
props_for_new_value e = elim (platforms_left e) [
  | none ↦ type_error
  | some left ↦ first_left (e.all_audience == "all") left.users left.workers
]

-- `disableAddValueButton`; `none` is the exception.
unfoldable pub disable_add_value_button : Editor → Option Bool
disable_add_value_button e = elim (props_for_new_value e) [
  | type_error ↦ none
  | null ↦ some true
  | props a p ↦ some false
]

-- `addValue`; `none` is the exception.
unfoldable pub add_value : Editor → Option Editor
add_value e = elim (props_for_new_value e) [
  | type_error ↦ none
  | null ↦ some (record e { values = e.values ++ empty_variable ∷ [] })
  | props a p ↦ some (record e {
    values = e.values ++ record empty_variable { audience = some a; platform = some p } ∷ [];
  })
]

unfoldable pub remove_at : ℕ → List VarValue → List VarValue
remove_at i [] = []
remove_at zero (v ∷ vs) = vs
remove_at (suc i) (v ∷ vs) = v ∷ remove_at i vs

-- `removeValue`: `splice(valueIndex, 1)` at an index of the table's rows.
unfoldable pub remove_value : ℕ → Editor → Editor
unfolding remove_at
remove_value value_index e = record e { values = remove_at value_index e.values }

unfoldable pub set_audience : VarValue → VarValue
set_audience v = record v { audience = some "all" }

-- `cleanupAudiences`.
unfoldable pub cleanup_audiences : Editor → Editor
unfolding set_audience
cleanup_audiences e =
    if e.all_audience == "separate" then e else record e { values = map set_audience e.values }
