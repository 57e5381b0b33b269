-- ===== src/Dashboard/Row.antt =====
-- static/dashboard.js: the texts and links of a worker's row and of a blacklist row.
pub mod Texts
use Prim.Native.Char.{Char, code}
use Prim.Native.Nat.{pred}
use Prim.Native.String
use flamenco_manager.Common.Int.{ℤ}
use flamenco_manager.Dashboard.Requests.{Payload}
use flamenco_manager.Dashboard.Actions.{ActionKey, label, payload}
use flamenco_manager.Dashboard.TimeDiff.{time_diff}
use flamenco_manager.Common.{
  ℕ, zero, suc, ◌-◌, String, Bool, true, false, Option, none, some, List, [], ◌∷◌, if◌then◌else◌,
  nat_eq, ◌==◌,
}
use flamenco_manager.Common.Decimal.{join}
use flamenco_manager.Common.Http.{shown}
use flamenco_manager.Common.StringSet.{has}
use flamenco_manager.Dashboard.Workers.{Worker}

-- `checkbox_id`.
unfoldable pub checkbox_id : Worker → String
unfolding join
checkbox_id w = join ("select_" ∷ w.id ∷ [])

-- `is_checked`: `selected_worker_ids.indexOf(worker._id) >= 0`.
unfoldable pub is_checked : List String → Worker → Bool
unfolding has
is_checked selected_worker_ids w = has selected_worker_ids w.id

unfoldable pub text_length : String → ℕ
text_length String.[] = 0
text_length (String.◌∷◌ c s) = suc (text_length s)

unfoldable pub text_drop : ℕ → String → String
text_drop zero s = s
text_drop (suc n) String.[] = ""
text_drop (suc n) (String.◌∷◌ c s) = text_drop n s

-- `text.substr(-n)`: the last `n` characters, or all where there are fewer.
unfoldable pub substr_last : ℕ → String → String
unfolding text_length text_drop
substr_last n s = text_drop (text_length s - n) s

-- `task_id_text`.
unfoldable pub task_id_text : Worker → String
unfolding substr_last join
task_id_text w = join ("…" ∷ substr_last 4 w.current_task ∷ [])

-- `task_log_url`.
unfoldable pub task_log_url : Worker → String
unfolding join
task_log_url w = join ("/logfile/" ∷ w.current_job ∷ "/" ∷ w.current_task ∷ [])

-- `task_log_curl_command`, where the browser makes a URL absolute; the token may be undefined.
unfoldable pub task_log_curl_command : (String → String) → Option String → Worker → String
unfolding task_log_url shown join
task_log_curl_command absolute token w =
    join ("curl -H \"Authorization: Bearer " ∷ shown token ∷ "\" " ∷ absolute (task_log_url w) ∷ [])

-- `task_server_url`.
unfoldable pub task_server_url : Worker → String
unfolding join
task_server_url w = join ("/tasks/" ∷ w.current_task ∷ "/redir-to-server" ∷ [])

-- What follows a text at the start of another.
unfoldable pub strip_prefix : String → String → Option String
strip_prefix String.[] s = some s
strip_prefix (String.◌∷◌ c p) String.[] = none
strip_prefix (String.◌∷◌ c p) (String.◌∷◌ d s) =
    if nat_eq (code c) (code d) then strip_prefix p s else none

-- `s.replace(p, '')`: the first occurrence is taken out.
unfoldable pub remove_first : String → String → String
remove_first p String.[] = ""
remove_first p (String.◌∷◌ c s) =
    let later = String.◌∷◌ c (remove_first p s) in
    elim (strip_prefix p (String.◌∷◌ c s)) [ some rest ↦ rest | none ↦ later ]

-- `worker_software`; an empty text counts as missing.
unfoldable pub worker_software : Worker → String
worker_software w = elim w.software [
  | none ↦ "-unknown-"
  | some software ↦ if software == "" then "-unknown-" else remove_first "Flamenco-Worker/" software
]

-- `job_id_text` of a blacklist row, at its `listitem.job_id`.
unfoldable pub job_id_text : String → String
job_id_text job_id = job_id

-- `job_id_url` of a blacklist row, at the server's URL.
unfoldable pub job_id_url : String → String → String
unfolding join
job_id_url server_url job_id = join (server_url ∷ "jobs/" ∷ job_id ∷ "/redir" ∷ [])

-- `has_workers` of the table.
unfoldable pub has_workers : List Worker → Bool
has_workers [] = false
has_workers (w ∷ ws) = true

-- `action` of an `action-button`: what it shows and sends.
unfoldable pub button_action : ActionKey → String × Payload
unfolding label payload
button_action key = (label key, payload key)

-- `show_details` of a `worker-tbody`, at first.
abbrev pub show_details_at_first : Bool
show_details_at_first = false

-- `current_task_updated` and `last_activity_rel` of a row, and `created` of a blacklist row, at the
-- time `now`; dates are read and written by the browser.
module _ (parse_date : String → Option ℤ) (locale_date : Option ℤ → String) where
  unfoldable pub current_task_updated_rel : ℤ → Option String → String
  current_task_updated_rel now current_task_updated =
      time_diff parse_date locale_date now current_task_updated

  unfoldable pub last_activity_rel : ℤ → Worker → String
  last_activity_rel now w = time_diff parse_date locale_date now w.last_activity

  unfoldable pub blacklisted_rel : ℤ → Option String → String
  blacklisted_rel now created = time_diff parse_date locale_date now created

  -- `last_activity_abs`: a date; a worker that has never been seen has the invalid date.
  unfoldable pub last_activity_abs : Worker → Option ℤ
  last_activity_abs w = elim w.last_activity [ none ↦ none | some t ↦ parse_date t ]
