-- ===== src/Setup/Tables.antt =====
-- static/websetup/websetup.js: `dataTable` and `saveDataTables`, which read the editable tables.
pub mod Reading
use flamenco_manager.Common.{
  String, Bool, true, not, Option, none, some, List, [], ◌∷◌, map, filter, if◌then◌else◌, ◌==◌,
}
use flamenco_manager.Common.Http.{shown}

-- A header cell: its text, and its `data-key`.
pub record Header : Type 0 where
  pub text : String
  pub key : Option String

-- A visible row of a table: its `th` and the texts of its `td`.
pub record TableRow : Type 0 where
  pub headers : List Header
  pub cells : List String

-- The keys of the headers that are not `:empty`; a key that is undefined is spelled out as a key.
unfoldable pub header_keys : List Header → List String
unfolding shown
header_keys [] = []
header_keys (h ∷ hs) =
    let rest = header_keys hs in if h.text == "" then rest else shown h.key ∷ rest

-- `h[key] = value`.
unfoldable pub put : String → String → List (String × String) → List (String × String)
put k v [] = (k, v) ∷ []
put k v ((j, w) ∷ h) = if j == k then (j, v) ∷ h else (j, w) ∷ put k v h

-- `h[key]`.
unfoldable pub get : String → List (String × String) → Option String
get k [] = none
get k ((j, w) ∷ h) = if j == k then some w else get k h

-- The loop over the headers; the text of a cell that is not there is empty.
unfoldable pub fill : List String → List String → List (String × String) → List (String × String)
unfolding put
fill [] cells h = h
fill (k ∷ ks) [] h = fill ks [] (put k "" h)
fill (k ∷ ks) (c ∷ cells) h = fill ks cells (put k c h)

-- The object of one row.
unfoldable pub row_object : List String → TableRow → List (String × String)
unfolding fill
row_object keys r = fill keys r.cells []

-- `dataTable`, at the visible rows: the first one has the headers.
unfoldable pub data_table : List TableRow → List (List (String × String))
unfolding header_keys row_object
data_table [] = []
data_table (r ∷ rs) = map (row_object (header_keys r.headers)) rs

-- `removeDefault`; a name that is undefined differs from the text.
unfoldable pub is_no_default : List (String × String) → Bool
unfolding get
is_no_default some_var_info = elim (get "name" some_var_info) [
  | none ↦ true
  | some name ↦ not (name == "variable-name")
]

-- `saveDataTables`: the values of `#variables-field` and `#path-variables-field`, by `JSON.stringify`.
unfoldable pub save_data_tables :
    (List (List (String × String)) → String) → List TableRow → List TableRow → String × String
unfolding data_table is_no_default
save_data_tables stringify variables path_variables = (
  stringify (filter is_no_default (data_table variables)),
  stringify (filter is_no_default (data_table path_variables)),
)
