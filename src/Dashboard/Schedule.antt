-- ===== src/Dashboard/Schedule.antt =====
-- static/dashboard.js: `scheduleSave`, the schedule's form in a worker's row, the copying of a schedule
-- to the selected workers, and the switch between the two views of the table.
pub mod Saving
use flamenco_manager.Common.{
  String, Bool, true, false, ◌&&◌, Option, none, some, List, [], ◌∷◌, ◌++◌, map, if◌then◌else◌,
  ◌==◌,
}
use flamenco_manager.Common.Decimal.{join}
use flamenco_manager.Common.Http.{HttpError, has_status, status_text, shown}

-- A sleep schedule; an undefined field is `none`, and a copy through JSON leaves it out.
pub record Schedule : Type 0 where
  pub schedule_active : Option Bool
  pub days_of_week : Option String
  pub time_start : Option String
  pub time_end : Option String

-- The empty object that a row's form starts with.
abbrev pub empty_schedule : Schedule
empty_schedule = record {
  schedule_active = none;
  days_of_week = none;
  time_start = none;
  time_end = none;
}

pub data Effect : Type 0 where
  post_schedule : (url : String) → Schedule → Effect
  toast_success : (message title : String) → Effect
  toast_error : (message title : String) → Effect
  load_workers : Effect

-- `if (!time) delete time`.
unfoldable pub given : Option String → Option String
given none = none
given (some t) = if t == "" then none else some t

-- The copy that is sent.
unfoldable pub to_send : Schedule → Schedule
unfolding given
to_send s = record s { time_start = given s.time_start; time_end = given s.time_end }

-- `scheduleSave(worker_id, schedule)`.
unfoldable pub schedule_save : String → Schedule → Effect
unfolding to_send join
schedule_save worker_id s =
    post_schedule (join ("/set-sleep-schedule/" ∷ worker_id ∷ [])) (to_send s)

-- Its `.done`.
unfoldable pub schedule_saved : String → List Effect
schedule_saved resp = toast_success resp "Sleep Schedule Saved" ∷ []

-- Its `.fail`.
unfoldable pub schedule_failed : HttpError → List Effect
unfolding has_status status_text shown join
schedule_failed error =
    if has_status error
    then toast_error (shown error.response_text) (join ("Error " ∷ status_text error.status ∷ []))
      ∷ []
    else toast_error "Is the Manager still running & reachable?" "Unable to save sleep schedule"
      ∷ []

-- The state of a `worker-row`.
pub record Form : Type 0 where
  pub mode : String
  pub edit_schedule : Schedule

-- `data` of the row, and its watcher of `show_schedule`.
unfoldable pub mode_for : Bool → String
mode_for show_schedule = if show_schedule then "show_schedule" else ""

unfoldable pub new_form : Bool → Form
unfolding mode_for
new_form show_schedule = record { mode = mode_for show_schedule; edit_schedule = empty_schedule }

unfoldable pub on_show_schedule : Bool → Form → Form
unfolding mode_for
on_show_schedule new_show f = record f { mode = mode_for new_show }

-- `scheduleEditMode`, at the worker's schedule.
unfoldable pub schedule_edit_mode : Schedule → Form → Form
schedule_edit_mode sleep_schedule f = record f {
  edit_schedule = sleep_schedule;
  mode = "edit_schedule";
}

-- `scheduleEditCancel`.
unfoldable pub schedule_edit_cancel : Form → Form
schedule_edit_cancel f = record f { mode = "show_schedule" }

-- `schedule.schedule_active == schedule_active`; undefined equals neither.
unfoldable pub same_active : Option Bool → Bool → Bool
same_active none b = false
same_active (some true) b = b
same_active (some false) true = false
same_active (some false) false = true

-- `scheduleSetActive`.
unfoldable pub schedule_set_active : String → Schedule → Bool → List Effect
unfolding same_active schedule_save
schedule_set_active worker_id sleep_schedule schedule_active =
    if same_active sleep_schedule.schedule_active schedule_active
    then []
    else schedule_save worker_id (record sleep_schedule { schedule_active = some schedule_active })
      ∷ []

-- The `.done` of `scheduleSetActive`, after the one of the saving itself.
unfoldable pub set_active_done : String → List Effect
unfolding schedule_saved
set_active_done resp = schedule_saved resp ++ load_workers ∷ []

-- `scheduleSave` of the row.
unfoldable pub row_save : String → Form → Effect
unfolding schedule_save
row_save worker_id f = schedule_save worker_id f.edit_schedule

-- Its `.done`.
unfoldable pub row_saved : String → Form → Form × List Effect
unfolding schedule_saved
row_saved resp f = (record f { mode = "show_schedule" }, schedule_saved resp ++ load_workers ∷ [])

-- `copySchedule`: the requests, in the order of the selection.
unfoldable pub copy_schedule : Schedule → List String → List Effect
unfolding schedule_save
copy_schedule s [] = []
copy_schedule s (id ∷ ids) = schedule_save id s ∷ copy_schedule s ids

-- Whether every request of `promises` succeeded.
unfoldable pub all_done : List Bool → Bool
all_done [] = true
all_done (b ∷ bs) = b && all_done bs

-- `Promise.all(promises).then(vueApp.loadWorkers)`, when all the requests have ended.
unfoldable pub copies_ended : List Bool → List Effect
unfolding all_done
copies_ended outcomes = if all_done outcomes then load_workers ∷ [] else []

-- The local storage's `show_schedule`: read by `data`, written by the watcher.
unfoldable pub show_schedule_of : Option String → Bool
show_schedule_of none = false
show_schedule_of (some t) = t == "true"

unfoldable pub store_show_schedule : Bool → Option String
store_show_schedule new_show = if new_show then some "true" else none
