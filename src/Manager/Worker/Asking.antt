-- ===== src/Manager/Worker/Asking.antt =====
-- flamenco/scheduler.go and flamenco/dashboard.go: what is answered to a worker that asks whether it may
-- keep running a task, and to an action of the dashboard.
use flamenco_manager.Common.{
  String, Bool, false, not, ◌&&◌, Option, none, some, List, if◌then◌else◌, ◌==◌, ℕ, nat_eq,
}
use flamenco_manager.Dashboard.Requests.{Payload}
use flamenco_manager.Manager.Worker.TestTask.{
  TestFailure, Tests, Created, created, not_created, create_test_task,
}
use flamenco_manager.Manager.Worker.{
  Worker, Copies, Failure, found, runnable, request_status_change, ack_timeout, Outcome,
}

-- The status and the worker of a task.
pub record Task : Type 0 where
  pub status : String
  pub worker_id : Option ℕ

-- `IsRunnableTaskStatus`.
unfoldable pub is_runnable_task_status : String → Bool
is_runnable_task_status status = status == "active"

-- `task.WorkerID != nil && *task.WorkerID != worker.ID`.
unfoldable pub of_other_worker : ℕ → Option ℕ → Bool
of_other_worker worker_id none = false
of_other_worker worker_id (some id) = not (nat_eq id worker_id)

-- Why a task may not be run on, in the order of the tests of `WorkerMayRunTask`.
pub data Reason : Type 0 where
  task_unknown task_reassigned : Reason
  task_not_runnable worker_requested : String → Reason

-- The request that interrupts a task.
unfoldable pub status_requested_now : Worker → String
status_requested_now w =
    if not (w.status_requested == "") && not w.lazy_status_request then w.status_requested else ""

-- `WorkerMayRunTask`: `none` is that it may.
unfoldable pub worker_may_run_task : ℕ → Worker → Option Task → Option Reason
unfolding of_other_worker is_runnable_task_status runnable status_requested_now
worker_may_run_task worker_id w none = some task_unknown
worker_may_run_task worker_id w (some t) =
    if of_other_worker worker_id t.worker_id
    then some task_reassigned
    else if not (is_runnable_task_status t.status)
    then some (task_not_runnable t.status)
    else if not (runnable (status_requested_now w))
    then some (worker_requested (status_requested_now w))
    else none

-- `r.FormValue("status")` and `r.FormValue("lazy") == "true"`.
unfoldable pub form_value : Option String → String
form_value none = ""
form_value (some s) = s

unfoldable pub form_lazy : Option Bool → Bool
form_lazy none = false
form_lazy (some b) = b

-- What `workerAction` answers, and what else it does.
pub data ActionResult : Type 0 where
  invalid_action done forget_worker forget_blacklist_line : ActionResult
  refused : Failure → ActionResult
  test_tasks : List String → ActionResult
  no_test_task : TestFailure → ActionResult

-- The answer to an error or to none.
unfoldable pub result_of : Option Failure → ActionResult
result_of none = done
result_of (some e) = refused e

-- The answer to a request for test tasks.
unfoldable pub tested : Created → ActionResult
tested (created types) = test_tasks types
tested (not_created e) = no_test_task e

-- The keys of `actionHandlers`.
pub data Action : Type 0 where
  set_status_action shutdown_action ack_timeout_action send_test_job_action : Action
  forget_worker_action forget_blacklist_line_action : Action

-- `actionHandlers[action]`.
unfoldable pub action_handler : String → Option Action
action_handler action =
    if action == "set-status"
    then some set_status_action
    else if action == "shutdown"
    then some shutdown_action
    else if action == "ack-timeout"
    then some ack_timeout_action
    else if action == "send-test-job"
    then some send_test_job_action
    else if action == "forget-worker"
    then some forget_worker_action
    else if action == "forget-blacklist-line"
    then some forget_blacklist_line_action
    else none

-- The end of `workerAction`, after a handler that changes the worker.
unfoldable pub answer_of : Outcome → Copies × ActionResult
unfolding result_of
answer_of (c, e) = (c, result_of e)

-- The handlers: of the two that forget something only the choice is modelled.
unfoldable pub handle : Action → Payload → Tests → Bool → Worker → Copies × ActionResult
unfolding tested create_test_task found request_status_change ack_timeout form_value form_lazy
    answer_of
handle set_status_action p tests ok w =
    answer_of (request_status_change (form_value p.status) (form_lazy p.lazy) ok (found w))
handle shutdown_action p tests ok w =
    answer_of (request_status_change "shutdown" (form_lazy p.lazy) ok (found w))
handle ack_timeout_action p tests ok w = answer_of (ack_timeout ok (found w))
handle send_test_job_action p tests ok w = (found w, tested (create_test_task w.status tests))
handle forget_worker_action p tests ok w = (found w, forget_worker)
handle forget_blacklist_line_action p tests ok w = (found w, forget_blacklist_line)

-- `workerAction` with a worker that was found.
unfoldable pub worker_action : Payload → Tests → Bool → Worker → Copies × ActionResult
unfolding action_handler handle found
worker_action p tests ok w = elim (action_handler p.action) [
  | none ↦ (found w, invalid_action)
  | some h ↦ handle h p tests ok w
]
