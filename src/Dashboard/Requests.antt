-- ===== src/Dashboard/Requests.antt =====
-- static/dashboard.js, `workerAction` and the notifications about its answer. What the code asks
-- of the browser, jQuery and toastr is a list of effects.
use flamenco_manager.Common.{String, Bool, Option, none, some, List, [], ◌∷◌, if◌then◌else◌, ◌==◌}
use flamenco_manager.Common.Decimal.{join}
use flamenco_manager.Common.Http.{HttpError, has_status, status_text, shown}

-- The form fields of `POST /worker-action/…`; a field that is left out is not sent.
pub record Payload : Type 0 where
  pub action : String
  pub status : Option String
  pub lazy : Option Bool
  pub job_id : Option String
  pub task_type : Option String

-- A payload with an action alone.
unfoldable pub plain : String → Payload
plain a = record { action = a; status = none; lazy = none; job_id = none; task_type = none }

pub data Effect : Type 0 where
  post : String → Payload → Effect
  toast_success : String → Effect
  toast_error : (message title : String) → Effect
  load_workers : Effect

-- `workerAction` up to the request: the answer of `confirm` matters only if a question is given.
unfoldable pub worker_action : (String → Bool) → String → Payload → Option String → List Effect
unfolding join
worker_action confirm id payload none = post (join ("/worker-action/" ∷ id ∷ [])) payload ∷ []
worker_action confirm id payload (some question) =
    if confirm question then post (join ("/worker-action/" ∷ id ∷ [])) payload ∷ [] else []

-- `.done`: an empty answer is reported as "Request confirmed", and the workers are loaded again.
unfoldable pub action_done : String → List Effect
action_done resp =
    toast_success (if resp == "" then "Request confirmed" else resp) ∷ load_workers ∷ []

-- `.fail`.
unfoldable pub action_failed : HttpError → List Effect
unfolding has_status status_text shown join
action_failed error =
    if has_status error
    then toast_error (shown error.response_text) (join ("Error " ∷ status_text error.status ∷ []))
      ∷ []
    else toast_error "Is the Manager still running & reachable?" "Unable to perform the action" ∷ []

-- The question that `forgetWorker` of the status component asks.
unfoldable pub forget_question : String → String
unfolding join
forget_question nickname = join (
    "Are you sure you want to erase " ∷ nickname ∷ "?\n\n"
    ∷ "This will cause authentication errors on the Worker if you "
    ∷ "ever restart it; use --reregister on the worker to solve that." ∷ [])

-- `forgetWorker(worker)`.
unfoldable pub forget_worker : (String → Bool) → String → String → List Effect
unfolding worker_action forget_question plain
forget_worker confirm id nickname =
    worker_action confirm id (plain "forget-worker") (some (forget_question nickname))

-- `forget_blacklist_entry` of a blacklist row: no question is asked.
unfoldable pub forget_blacklist_entry : (String → Bool) → String → String → String → List Effect
unfolding worker_action plain
forget_blacklist_entry confirm id job_id task_type =
    worker_action confirm id
      (record (plain "forget-blacklist-line") { job_id = some job_id; task_type = some task_type })
      none
