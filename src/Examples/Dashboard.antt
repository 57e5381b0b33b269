-- ===== src/Examples/Dashboard.antt =====
-- static/dashboard.js at concrete inputs.
use mathlib.Core.List.{Memᴰ}
use flamenco_manager.Common.{
  String, ◌≡◌, refl, inl, ◌≤◌, ◌+◌, true, ◌&&◌, Option, none, some, List, [], ◌∷◌, arith,
}
use flamenco_manager.Common.Decimal.{join}
use flamenco_manager.Common.Handles.{no_handles, close_latest, open_new}
use flamenco_manager.Common.Http.{HttpError, needs_token, status_is}
use flamenco_manager.Common.Int.{ℤ, pos, ◌-ℤ◌}
use flamenco_manager.Common.StringSet.{has, IsDistinct, of_array, add}
use flamenco_manager.Dashboard.TimeDiff.{age, time_diff}
use flamenco_manager.Dashboard.TimeDiff.Rounding.{stated, tolerance, age_exact}
use flamenco_manager.Dashboard.Timers.{load_workers_after_ms}
use flamenco_manager.Dashboard.Workers.{Worker, split_workers, is_idle}
use flamenco_manager.Dashboard.Workers.Split.{ids}
use flamenco_manager.Dashboard.App.{
  App, Info, load_done, title_text, lookup, copy_known, replace, on_worker_selected,
}
use flamenco_manager.Dashboard.App.Selection.{IsConsistent, has-load_done, load_done-IsConsistent}
use flamenco_manager.Dashboard.Polling.{
  System, created, fire, fail, Reach, here, next, fires, failed,
}
use flamenco_manager.Dashboard.Polling.Alive.{IsSound, Reach-created-IsSound}

abbrev worker : String → Option String → Worker
worker id last_activity = record {
  id = id;
  nickname = id;
  last_activity = last_activity;
  status = some "awake";
  status_requested = none;
  current_task = "";
  current_job = "";
  software = none;
}

abbrev pub reported : List Worker
reported = worker "w1" (some "recent") ∷ worker "w2" none ∷ worker "w3" (some "recent") ∷ []

-- A clock that reads every timestamp as the start of 1970.
abbrev pub parse_date : String → Option ℤ
parse_date t = some (pos 0)

abbrev pub text_of : Option String → String
text_of none = "undefined"
text_of (some t) = t

abbrev pub page : List String → List Worker → App String
page selected current = record {
  errormsg = "";
  serverinfo = ("version", "unknown") ∷ ("manager_name", "Flamenco Manager") ∷ [];
  title = "";
  idle_workers = [];
  current_workers = current;
  selected_worker_ids = selected;
  dynamic_pools = none;
  timers = no_handles;
  clipboards = no_handles;
}

abbrev pub report : Info String
report = record {
  entries = ("version", "2.7") ∷ ("other", "x") ∷ [];
  workers = some reported;
  dynamic_pools = none;
}

-- What a run of the page's handlers opens.
pub run_page : Unit {0}
unfolding load_done split_workers is_idle ◌-ℤ◌ add has title_text join lookup copy_known replace
    of_array on_worker_selected
run_page = tt

split_test : (split_workers parse_date (pos 5) (some reported)).selectable ≡ "w1" ∷ "w3" ∷ []
unfolding run_page
split_test = refl

load_done_test :
    ((load_done parse_date text_of (pos 5) report (page ("w3" ∷ "w2" ∷ []) [])).selected_worker_ids
      ≡ "w3" ∷ [])
    × ((load_done parse_date text_of (pos 5) report (page [] [])).title ≡ "Flamenco Manager 2.7")
unfolding run_page
load_done_test = (refl, refl)

time_diff_test : time_diff parse_date (λ d. "1 Jan 1970") (pos 90000) (some "x") ≡ "2 min ago"
unfolding time_diff ◌-ℤ◌
time_diff_test = refl

-- The page after a report that lists three workers, of which "w3" was selected.
abbrev pub loaded : App String
loaded = load_done parse_date text_of (pos 5) report (page ("w3" ∷ []) [])

pub reported-IsDistinct : IsDistinct (ids reported)
unfolding has
reported-IsDistinct = (refl, (refl, (refl, tt)))

selected-IsDistinct : IsDistinct ("w3" ∷ [])
unfolding has
selected-IsDistinct = (refl, tt)

pub loaded-IsConsistent : IsConsistent loaded
loaded-IsConsistent =
    load_done-IsConsistent parse_date text_of (pos 5) report (page ("w3" ∷ []) []) reported refl
      reported-IsDistinct selected-IsDistinct

pub w1_is_current : has (ids loaded.current_workers) "w1" ≡ true
unfolding run_page
w1_is_current = refl

has-load_done_example :
    has loaded.selected_worker_ids "w2"
    ≡ (has (ids loaded.current_workers) "w2" && has ("w3" ∷ []) "w2")
has-load_done_example = has-load_done parse_date text_of (pos 5) report (page ("w3" ∷ []) []) "w2"

age_exact_example :
    (90000 ≤ stated (age (pos 90000)) + tolerance (age (pos 90000)))
    × (stated (age (pos 90000)) ≤ 90000 + tolerance (age (pos 90000)))
age_exact_example = age_exact 90000 (omega arith)

-- The first request fails without an answer, and the timeout fires.
abbrev no_answer : HttpError
no_answer = record { status = some 0; response_text = none }

abbrev refused : HttpError
refused = record { status = some 401; response_text = none }

abbrev start : System String
start = created (page [] [])

abbrev after_failure : System String
after_failure = fire 0 (fail no_answer 0 start)

run_failure : Reach parse_date text_of start after_failure
unfolding created fire fail load_workers_after_ms close_latest open_new needs_token status_is
run_failure = next (next here (failed 0 no_answer refl refl)) (fires 0 10000 (Memᴰ.head refl) refl)

Reach-created-IsSound_example : IsSound after_failure
Reach-created-IsSound_example =
    Reach-created-IsSound parse_date text_of (page [] []) after_failure (inl refl) (inl refl)
      run_failure
