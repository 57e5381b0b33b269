-- ===== src/Examples/Setup.antt =====
-- static/websetup/websetup.js at concrete inputs.
use flamenco_manager.Common.{
  ℕ, ◌+◌, String, ◌≡◌, refl, ◌≢◌, true, false, Option, none, some, List, [], ◌∷◌, arith, eq_iff,
}
use Prim.Native.String
use flamenco_manager.Setup.Tables.{TableRow, header_keys, save_data_tables}
use flamenco_manager.Common.Http.{shown, HttpError, needs_token, status_is}
use flamenco_manager.Common.StringSet.{has, add, delete, of_array}
use flamenco_manager.Setup.Variables.{
  VarValue, Editor, supported_platforms, props, null, platforms_left, take_values, take_value,
  delete_platform, delete_text, names_all, first_left, every_platform, props_for_new_value,
  inherited_names,
}
use flamenco_manager.Setup.Variables.Leaves.{PlainValues}
use flamenco_manager.Setup.Config.{
  Config, Page, form, SaveOptions, form_options, post_setup_data, save_config, clean_config,
}
use flamenco_manager.Setup.Link.{LinkPage}
use flamenco_manager.Setup.Link.Rounds.{rounds, rounds-checks}

abbrev value : Option String → String → VarValue
value audience platform = record {
  value = "/x";
  audience = audience;
  platform = some platform;
  platforms = [];
}

abbrev editor : String → List VarValue → Editor
editor all_audience values = record {
  var_name = "ffmpeg";
  direction = "oneway";
  values = values;
  all_audience = all_audience;
}

-- What a run of `propsForNewValue` opens.
run_props : Unit {0}
unfolding props_for_new_value platforms_left take_values take_value delete_platform delete_text
    names_all first_left every_platform of_array add delete has
run_props = tt

separate_editor_proposes :
    props_for_new_value (editor "separate" (value (some "users") "linux" ∷ []))
    ≡ props "users" "darwin"
unfolding run_props
separate_editor_proposes = refl

abbrev full_editor : Editor
full_editor = editor "separate" (
    value (some "all") "linux"
    ∷ value (some "") "darwin"
    ∷ value (some "users") "windows"
    ∷ value (some "workers") "windows"
    ∷ [])

full_editor_proposes : props_for_new_value full_editor ≡ null
unfolding run_props
full_editor_proposes = refl

windows_is_supported : has supported_platforms "windows" ≡ true
unfolding has
windows_is_supported = refl

plain_values : PlainValues (value (some "users") "linux" ∷ [])
unfolding has
plain_values = (refl, tt)

constructor_is_inherited : has inherited_names "constructor" ≡ true
unfolding has
constructor_is_inherited = refl

abbrev shared_editor : Editor
shared_editor = editor "all" (value (some "users") "linux" ∷ value none "darwin" ∷ [])

abbrev config : String → Config ℕ
config url = record { database_url = url; variables = []; rest = 3 }

abbrev page : Page ℕ
page = record {
  own_urls = [];
  config = config "mongodb://a";
  original_config = config "";
  mongo_choice = "external";
  mode = form;
  editors = [];
}

abbrev stringify : Config ℕ → String
stringify c = c.database_url

abbrev options : SaveOptions ℕ
options = form_options false page

abbrev refused : HttpError
refused = record { status = some 498; response_text = none }

edited_is_new : post_setup_data (config "mongodb://b") ≢ (save_config options page).1
unfolding save_config form_options clean_config
edited_is_new e = ground (arith, eq_iff "mongodb://b" "mongodb://a")

abbrev link_page : LinkPage
link_page = record {
  link_button = false;
  link_form = false;
  relink_action = false;
  in_progress = true;
  check_result = "";
  check_is_html = false;
  start_result = "";
  start_shown = false;
  listening = false;
  checks = 1;
  waiting = 0;
  location = none;
}

refused-needs_token : needs_token refused ≡ true
unfolding needs_token status_is
refused-needs_token = refl

rounds-checks_example :
    ((rounds refused 3 link_page).checks ≡ 1 + 3) × ((rounds refused 3 link_page).waiting ≡ 0)
rounds-checks_example = rounds-checks refused refused-needs_token 3 link_page (omega arith) refl

abbrev cells : List String → TableRow
cells texts = record { headers = []; cells = texts }

abbrev head_row : TableRow
head_row = record {
  headers =
      record { text = "Name"; key = some "name" }
      ∷ record { text = "Value"; key = some "value" }
      ∷ record { text = ""; key = none }
      ∷ [];
  cells = [];
}

abbrev table_rows : List TableRow
table_rows =
    cells ("ffmpeg" ∷ "/usr/bin/ffmpeg" ∷ [])
    ∷ cells ("variable-name" ∷ "" ∷ [])
    ∷ cells ("alone" ∷ [])
    ∷ []

abbrev shown_names : List (List (String × String)) → String
shown_names [] = ""
shown_names ([] ∷ rows) = shown_names rows
shown_names (((k, v) ∷ row) ∷ rows) = String.◌++◌ v (shown_names rows)

head_row_keys : header_keys head_row.headers ≡ "name" ∷ "value" ∷ []
unfolding header_keys shown
head_row_keys = refl

value_is_no_name : has ("value" ∷ []) "name" ≡ false
unfolding has
value_is_no_name = refl

save_data_tables_test : (save_data_tables shown_names (head_row ∷ table_rows) []).0 ≡ "ffmpegalone"
unfolding save_data_tables header_keys shown
save_data_tables_test = refl
