-- ===== src/Examples/Components.antt =====
-- The components, the YAML editor, the modal and the ready handlers at concrete inputs.
use flamenco_manager.Common.{
  ℕ, zero, suc, String, ◌≡◌, refl, true, false, some, List, [], ◌∷◌, filter,
}
use flamenco_manager.Common.Http.{shown}
use flamenco_manager.Common.StringSet.{has, delete}
use flamenco_manager.Common.Component.{Use}
use flamenco_manager.Dashboard.Pools.{Pool}
use flamenco_manager.Setup.Config.{Config, Page, form, Loaded, value}
use flamenco_manager.Setup.Yaml.{Ace, YamlEditor}
use flamenco_manager.Setup.Tables.{header_keys}
use flamenco_manager.Setup.Ready.{
  ClassedRow, is_hidden, add_rows, visible_rows, Indicator, loaded, begin_request, end_request,
  page_ready, Reach, here, next, ends, readies,
}

abbrev yaml_use : Use
yaml_use = record {
  inside = "";
  component = "yaml-editor";
  passed = "config" ∷ "original_config" ∷ [];
  listened = "configupdated" ∷ "reloadconfig" ∷ [];
}

abbrev pool : Pool
pool = record {
  id = "pool-1";
  allocation_state = "steady";
  current_size = record { dedicated_nodes = 1; low_priority_nodes = 2 };
  desired_size = record { dedicated_nodes = 1; low_priority_nodes = 5 };
}

-- An editor as its text and its row, in which every text has ten lines.
abbrev goto : ℕ → String × ℕ → String × ℕ
goto zero e = e
goto (suc n) (t, r) = (t, n)

get_value-goto : (n : ℕ) (e : String × ℕ) → (goto n e).0 ≡ e.0
get_value-goto zero e = refl
get_value-goto (suc n) e = refl

abbrev ace : Ace
ace = record {
  Editor = String × ℕ;
  edit = λ id t. (t, 0);
  set_theme = λ t e. e;
  set_mode = λ m e. e;
  set_option = λ n v e. e;
  get_value = λ e. e.0;
  set_value = λ t e. (t, 0);
  row = λ e. e.1;
  goto_line = goto;
  destroy = λ e. e;
  remove_container = λ e. e;
  lines = λ t. 10;
  get_value-edit = λ id t. refl;
  get_value-set_theme = λ t e. refl;
  get_value-set_mode = λ m e. refl;
  get_value-set_option = λ n v e. refl;
  get_value-set_value = λ t e. refl;
  get_value-goto_line = get_value-goto;
  row-goto_line = λ n e h. refl;
}

abbrev config : Config ℕ
config = record { database_url = "mongodb://a"; variables = []; rest = 3 }

abbrev dump : Config ℕ → String
dump c = c.database_url

abbrev load : String → Loaded ℕ
load t = value config

abbrev page : Page ℕ
page = record {
  own_urls = [];
  config = config;
  original_config = config;
  mongo_choice = "external";
  mode = form;
  editors = [];
}

abbrev opened : YamlEditor ace ℕ
opened = record { config = config; editor = some ("database_url: x", 4) }

-- Both requests of the page are answered after it is ready.
abbrev ready : Indicator
ready = page_ready loaded

abbrev answered_once : Indicator
answered_once = end_request 1 ready

abbrev answered_twice : Indicator
answered_twice = end_request 0 answered_once

run_ready : Reach loaded answered_twice
unfolding loaded page_ready begin_request end_request
run_ready = next (next (next here (readies refl refl)) (ends 1 refl refl)) (ends 0 refl refl)

answered-listening : answered_twice.listening ≡ true
unfolding page_ready end_request
answered-listening = refl

abbrev classed : List String → List String → ClassedRow
classed classes cells = record {
  classes = classes;
  content = record { headers = []; cells = cells };
}

abbrev head_row : ClassedRow
head_row = record {
  classes = [];
  content = record { headers = record { text = "Name"; key = some "name" } ∷ []; cells = [] };
}

abbrev table : List ClassedRow
table =
    head_row
    ∷ classed [] ("ffmpeg" ∷ [])
    ∷ classed ("d-none" ∷ "table-line" ∷ []) ("variable-name" ∷ [])
    ∷ []

table_visible :
    visible_rows table ≡ head_row.content ∷ record { headers = []; cells = "ffmpeg" ∷ [] } ∷ []
unfolding visible_rows has
table_visible = refl

table_keys : header_keys head_row.content.headers ≡ "name" ∷ []
unfolding header_keys shown
table_keys = refl

no_later_key : has [] "name" ≡ false
unfolding has
no_later_key = refl

table_template :
    filter is_hidden table ≡ classed ("d-none" ∷ "table-line" ∷ []) ("variable-name" ∷ []) ∷ []
unfolding is_hidden has
table_template = refl

add_rows_test :
    visible_rows (add_rows table)
    ≡ head_row.content
      ∷ record { headers = []; cells = "ffmpeg" ∷ [] }
      ∷ record { headers = []; cells = "variable-name" ∷ [] }
      ∷ []
unfolding visible_rows add_rows has delete
add_rows_test = refl
