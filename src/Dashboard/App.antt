-- ===== src/Dashboard/App.antt =====
-- static/dashboard.js: the state and the methods of `vueApp`. A value of the status report that the
-- page only copies has an abstract type `V`. The tooltips of `.click-to-copy` are left out.
pub mod Selection
pub mod Choosing
use flamenco_manager.Common.{
  String, Bool, true, false, not, ◌&&◌, Option, none, some, List, [], ◌∷◌, map, if◌then◌else◌,
  nat_eq, ◌==◌, filter, length,
}
use flamenco_manager.Common.Decimal.{join}
use flamenco_manager.Common.Handles.{Handles, close_latest, open_new}
use flamenco_manager.Common.Http.{HttpError, has_status, needs_token, status_is, status_text, shown}
use flamenco_manager.Common.Int.{ℤ}
use flamenco_manager.Common.StringSet.{has, add, delete, of_array}
use flamenco_manager.Dashboard.Timers.{Timers, load_workers_after_ms, load_workers_soon}
use flamenco_manager.Dashboard.Workers.{Worker, split_workers}

-- The data of `vueApp`, the document's title, and the browser objects that the script holds.
pub record App (V : Type 0) : Type 0 where
  pub errormsg : String
  pub serverinfo : List (String × V)
  pub title : String
  pub idle_workers : List Worker
  pub current_workers : List Worker
  pub selected_worker_ids : List String
  pub dynamic_pools : Option V
  pub timers : Timers
  pub clipboards : Handles (Unit {0})

-- The answer of `/as-json`: its own keys with their values, and the two that the code reads by name.
pub record Info (V : Type 0) : Type 0 where
  pub entries : List (String × V)
  pub workers : Option (List Worker)
  pub dynamic_pools : Option V

module _ {V : Type 0} where
  unfoldable pub lookup : String → List (String × V) → Option V
  lookup k [] = none
  lookup k ((j, v) ∷ m) = if j == k then some v else lookup k m

  -- `object[key] = value` for a key that the object has; another key is left alone.
  unfoldable pub replace : String → V → List (String × V) → List (String × V)
  replace k v [] = []
  replace k v ((j, w) ∷ m) = if j == k then (j, v) ∷ m else (j, w) ∷ replace k v m

  -- The loop `for (key in info)`: only the keys that `serverinfo` has are copied.
  unfoldable pub copy_known : List (String × V) → List (String × V) → List (String × V)
  copy_known [] serverinfo = serverinfo
  copy_known ((k, v) ∷ info) serverinfo = copy_known info (replace k v serverinfo)

  -- `loadWorkers` up to the request; `$.get('/as-json')` follows.
  unfoldable pub load_workers : App V → App V
  load_workers app = record app { timers = close_latest app.timers }

  -- The `.always` handler: the clipboard is made anew.
  unfoldable pub always_loaded : App V → App V
  always_loaded app = record app { clipboards = open_new tt (close_latest app.clipboards) }

  -- `all_workers_selected`.
  unfoldable pub all_workers_selected : App V → Bool
  all_workers_selected app =
      not (nat_eq (length app.current_workers) 0)
      && nat_eq (length app.current_workers) (length app.selected_worker_ids)

  -- `onWorkerSelected`.
  unfoldable pub on_worker_selected : Bool → String → App V → App V
  on_worker_selected is_selected worker_id app = record app {
    selected_worker_ids =
        let selected_ids = of_array app.selected_worker_ids in
        if is_selected then add selected_ids worker_id else delete selected_ids worker_id;
  }

  -- `toggleSelectAllWorkers`.
  unfoldable pub toggle_select_all_workers : App V → App V
  unfolding all_workers_selected
  toggle_select_all_workers app = record app {
    selected_worker_ids =
        if all_workers_selected app then [] else map (λ w. w.id) app.current_workers;
  }

  -- The `.fail` handler of `loadWorkers`; `true` asks for a token by `obtainJWTToken`.
  unfoldable pub load_failed : HttpError → App V → App V × Bool
  unfolding always_loaded
  load_failed error app = if needs_token error then (always_loaded app, true) else (
    always_loaded (record app {
      errormsg =
          if has_status error
          then join ("Error " ∷ status_text error.status ∷ ": " ∷ shown error.response_text ∷ [])
          else "Unable to get the status report. Is the Manager still running & reachable?";
      timers = load_workers_after_ms 10000 app.timers;
    }),
    false,
  )

  -- `onJWTServerError`.
  unfoldable pub on_jwt_server_error : HttpError → App V → App V
  on_jwt_server_error error app = record app {
    errormsg =
        if status_is 0 error.status
        then "Unable to get authentication token; is Flamenco Server still running?"
        else join (
            "Error "
            ∷ status_text error.status
            ∷ " getting authentication token from Flamenco Server: "
            ∷ shown error.response_text
            ∷ []);
    timers = load_workers_after_ms 5000 app.timers;
  }

  -- `onJWTManagerError`.
  unfoldable pub on_jwt_manager_error : HttpError → App V → App V
  on_jwt_manager_error error app = record app {
    errormsg =
        if status_is 0 error.status
        then "Unable to get authentication URLs; is Flamenco Manager still running?"
        else join (
            "Error "
            ∷ status_text error.status
            ∷ " getting authentication URLs from Flamenco Manager: "
            ∷ shown error.response_text
            ∷ []);
    timers = load_workers_after_ms 5000 app.timers;
  }

  -- The listener of `newJWTToken`, `loadWorkersSoon`.
  unfoldable pub on_new_token : App V → App V
  on_new_token app = record app { timers = load_workers_soon app.timers }

  -- `new Date(…)` of a text, and the text form of a copied value.
  module _ (parse_date : String → Option ℤ) (text_of : Option V → String) where
    -- `document.title`.
    unfoldable pub title_text : List (String × V) → String
    title_text serverinfo = join (
        text_of (lookup "manager_name" serverinfo)
        ∷ " "
        ∷ text_of (lookup "version" serverinfo)
        ∷ [])

    -- The `.done` handler of `loadWorkers`, at the time `now`, with `.always` after it.
    unfoldable pub load_done : ℤ → Info V → App V → App V
    unfolding always_loaded
    load_done now info app =
        let serverinfo = copy_known info.entries app.serverinfo in
        let workers = split_workers parse_date now info.workers in
        always_loaded (record {
          errormsg = "";
          serverinfo = serverinfo;
          title = title_text serverinfo;
          idle_workers = workers.idle;
          current_workers = workers.current;
          selected_worker_ids = filter (has workers.selectable) app.selected_worker_ids;
          dynamic_pools = info.dynamic_pools;
          timers = load_workers_after_ms 2000 app.timers;
          clipboards = app.clipboards;
        })
