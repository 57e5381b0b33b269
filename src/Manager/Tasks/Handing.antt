-- ===== src/Manager/Tasks/Handing.antt =====
-- flamenco/scheduler.go, flamenco/timeout_checker.go and flamenco/task_updates.go: a task is handed to a worker, is
-- returned, times out, or is cancelled by the server. The texts of the log and of the activity, which hold the
-- time and the worker's name, are arguments.
use flamenco_manager.Common.{
  ℕ, String, Bool, false, not, Option, none, some, List, [], ◌++◌, if◌then◌else◌, ◌==◌,
}
use flamenco_manager.Manager.Worker.Asking.{of_other_worker}
use flamenco_manager.Manager.Tasks.{
  Task, Update, Answers, Queued, rotation_events, is_manager_local_task, queue_task_update,
  queue_task_update_with_extra,
}

-- The texts of an update.
pub record Texts : Type 0 where
  pub activity : String
  pub log : List ℕ

-- An update to a status.
unfoldable pub update_to : String → Texts → Bool → Update
update_to status texts local = record {
  task_status = status;
  activity = texts.activity;
  log = texts.log;
  log_tail = [];
  failed_by_workers = [];
  is_manager_local = local;
}

abbrev pub no_texts : Texts
no_texts = record { activity = ""; log = [] }

-- `assignTaskToWorker`, but for the worker's own current task: the log file is rotated first, and the
-- copy in memory is active before its update is queued.
unfoldable pub assign_task_to_worker : ℕ → Answers → Task → Option Task → Queued
unfolding update_to rotation_events queue_task_update_with_extra is_manager_local_task
assign_task_to_worker id a task stored =
    let active = record task { status = "active" } in
    let q =
      queue_task_update_with_extra active (update_to "active" no_texts (is_manager_local_task task))
        (λ t. record t { worker_id = some id }) a stored in
    record q { events = rotation_events task "active" ++ q.events }

-- `unassignTaskFromWorker`.
unfoldable pub unassign_task_from_worker : Texts → Answers → Task → Option Task → Queued
unfolding update_to queue_task_update is_manager_local_task
unassign_task_from_worker texts a task stored =
    queue_task_update task (update_to "claimed-by-manager" texts (is_manager_local_task task)) a
      stored

-- An operation that does nothing.
unfoldable pub nothing_done : Option Task → Queued
nothing_done stored = record { events = []; stored = stored; error = none }

-- `ReturnTask`.
unfoldable pub return_task : ℕ → Texts → Answers → Task → Option Task → Queued
unfolding of_other_worker nothing_done update_to queue_task_update is_manager_local_task
return_task id texts a task stored =
    if of_other_worker id task.worker_id
    then nothing_done stored
    else if not (task.status == "active")
    then nothing_done stored
    else queue_task_update (record task { status = "claimed-by-manager" })
        (update_to "claimed-by-manager" texts (is_manager_local_task task)) a stored

-- What `checkTasks` reads of a task: its projection leaves out the status, the job and the job's type.
unfoldable pub projected_task : Task → Task
projected_task t = record {
  status = "";
  activity = "";
  worker_id = t.worker_id;
  failed_by_workers = [];
  job_known = false;
  job_type = "";
}

-- The last part of `timeoutTask`: the update that fails the task.
unfoldable pub fail_timed_out : Texts → Answers → Task → Option Task → Queued
unfolding update_to queue_task_update is_manager_local_task
fail_timed_out texts a task stored =
    queue_task_update task (update_to "failed" texts (is_manager_local_task task)) a stored

-- `timeoutTask` for a task of a worker that is found, which was read before from the document `t`: the
-- worker's task is returned, as it stands in the database, and then it fails.
unfoldable pub timeout_task :
    ℕ → (returning failing : Texts) → (a b : Answers) → Task → Queued × Queued
unfolding projected_task fail_timed_out return_task
timeout_task id returning failing a b t =
    let back = return_task id returning a t (some t) in
    (back, fail_timed_out failing b (projected_task t) back.stored)

-- What `handleIncomingCancelRequests` reads of a task.
unfoldable pub cancel_projection : Task → Task
cancel_projection t = record {
  status = t.status;
  activity = "";
  worker_id = none;
  failed_by_workers = [];
  job_known = t.job_known;
  job_type = "";
}

-- The document that stands for a task that the manager does not know.
abbrev pub fake_task : Task
fake_task = record {
  status = "";
  activity = "";
  worker_id = none;
  failed_by_workers = [];
  job_known = false;
  job_type = "";
}

-- `queueTaskCancel`: the line of the log, whose error is only logged, and then the status.
unfoldable pub queue_task_cancel : Texts → (a b : Answers) → Task → Option Task → Queued × Queued
unfolding update_to queue_task_update is_manager_local_task
queue_task_cancel texts a b task stored =
    let noted = queue_task_update task (update_to "" texts (is_manager_local_task task)) a stored in
    (noted, queue_task_update task (update_to "canceled" no_texts false) b noted.stored)

-- `handleIncomingCancelRequests` on one of its tasks, where `marked` is whether the update of all active ones
-- succeeds.
unfoldable pub cancel_task : Texts → (marked : Bool) → (a b : Answers) → Option Task → Option Task
unfolding cancel_projection queue_task_cancel
cancel_task texts marked a b none = (queue_task_cancel texts a b fake_task none).1.stored
cancel_task texts marked a b (some t) =
    if t.status == "active"
    then some (if marked then record t { status = "cancel-requested" } else t)
    else (queue_task_cancel texts a b (cancel_projection t) (some t)).1.stored
