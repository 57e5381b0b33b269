-- ===== src/Manager/Variables.antt =====
-- flamenco/settings.go: the variables of the configuration, and the table in which their values are looked
-- up. Texts of values are lists of bytes; a map is the list of what is stored in it, the latest first, or
-- the list in the order in which it is run through.
pub mod Table
pub mod Proposed
pub mod Texts
pub mod Checked
use flamenco_manager.Common.{
  ℕ, String, Bool, true, false, not, ◌&&◌, ◌||◌, Option, none, some, List, [], ◌∷◌, if◌then◌else◌,
  ◌==◌, nat_eq,
}

-- `ConfV2VariableValue`; what is not set is "" or empty.
pub record Value : Type 0 where
  pub audience : String
  pub platform : String
  pub platforms : List String
  pub value : List ℕ

-- `ConfV2Variable` with its name.
pub record Variable : Type 0 where
  pub name : String
  pub direction : String
  pub values : List Value

-- A value in `VariablesLookup`.
pub record Entry : Type 0 where
  pub audience : String
  pub platform : String
  pub name : String
  pub value : List ℕ

unfoldable pub is_entry : String → String → String → Entry → Bool
is_entry audience platform name e =
    e.audience == audience && (e.platform == platform && e.name == name)

-- `VariablesLookup[audience][platform][name]`.
unfoldable pub look_up : String → String → String → List Entry → Option (List ℕ)
unfolding is_entry
look_up audience platform name [] = none
look_up audience platform name (e ∷ es) =
    let rest = look_up audience platform name es in
    if is_entry audience platform name e then some e.value else rest

-- `isWildcard`.
unfoldable pub is_wildcard : String → Bool
is_wildcard a = a == "" || a == "all"

unfoldable pub entry : String → String → String → List ℕ → Entry
entry a p n v = record { audience = a; platform = p; name = n; value = v }

-- `setValue`; the concrete audiences are set in either order.
unfoldable pub set_value : String → String → String → List ℕ → List Entry → List Entry
unfolding is_wildcard entry
set_value audience platform name value table =
    if is_wildcard audience
    then entry "users" platform name value ∷ entry "workers" platform name value ∷ table
    else entry audience platform name value ∷ table

-- `strings.TrimRight(…, "/")`: a slash stays if something else follows.
unfoldable pub keep_before : ℕ → List ℕ → List ℕ
keep_before c [] = if nat_eq c b'/' then [] else c ∷ []
keep_before c (d ∷ ds) = c ∷ d ∷ ds

unfoldable pub trim_slashes : List ℕ → List ℕ
unfolding keep_before
trim_slashes [] = []
trim_slashes (c ∷ cs) = keep_before c (trim_slashes cs)

-- The text of a value in a variable of a direction.
unfoldable pub text_of : String → List ℕ → List ℕ
unfolding trim_slashes
text_of direction v = if direction == "twoway" then trim_slashes v else v

unfoldable pub set_platforms : String → List String → String → List ℕ → List Entry → List Entry
unfolding set_value
set_platforms audience [] name value table = table
set_platforms audience (p ∷ ps) name value table =
    set_platforms audience ps name value (set_value audience p name value table)

-- The inner loop of `constructVariableLookupTable`.
unfoldable pub add_value : String → String → Value → List Entry → List Entry
unfolding set_value set_platforms text_of
add_value name direction v table =
    set_platforms v.audience v.platforms name (text_of direction v.value) (
      if v.platform == ""
      then table
      else set_value v.audience v.platform name (text_of direction v.value) table)

unfoldable pub add_values : String → String → List Value → List Entry → List Entry
unfolding add_value
add_values name direction [] table = table
add_values name direction (v ∷ vs) table =
    add_values name direction vs (add_value name direction v table)

-- The outer loop.
unfoldable pub add_variables : List Variable → List Entry → List Entry
unfolding add_values
add_variables [] table = table
add_variables (v ∷ vs) table = add_variables vs (add_values v.name v.direction v.values table)

-- `constructVariableLookupTable`.
unfoldable pub construct_variable_lookup_table : List Variable → List Entry
unfolding add_variables
construct_variable_lookup_table vs = add_variables vs []
