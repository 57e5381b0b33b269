-- ===== src/Manager/Tasks/FromWorker.antt =====
-- flamenco/task_updates.go: an update that a worker sends of a task, and what is decided when the worker failed
-- it. Which workers are left, and which tasks of a worker have failed, are answers of the database.
use flamenco_manager.Common.{
  ℕ, ◌+◌, String, Bool, true, false, not, ◌&&◌, ◌||◌, Option, none, some, List, [], ◌∷◌, ◌++◌,
  if◌then◌else◌, ◌==◌, nat_eq, leb, length, filter, map,
}
use flamenco_manager.Manager.Worker.Asking.{of_other_worker, is_runnable_task_status}
use flamenco_manager.Manager.Tasks.{
  Task, Update, Answers, Queued, is_manager_local_task, queue_task_update,
  queue_task_update_with_extra,
}

unfoldable pub member : ℕ → List ℕ → Bool
member id [] = false
member id (x ∷ xs) = nat_eq x id || member id xs

-- `delete(workersLeft, …)` for each of the workers.
unfoldable pub without : List ℕ → List ℕ → List ℕ
unfolding member
without removed left = filter (λ id. not (member id removed)) left

unfoldable pub is_empty : List ℕ → Bool
is_empty [] = true
is_empty (x ∷ xs) = false

-- `onTaskFailed` and `addWorkerToFailedList`: the copy of the task and the update after them. `left` is what
-- `maybeBlacklistWorker` returns, `limit` is `TaskFailAfterSoftFailCount`.
unfoldable pub failure_status : ℕ → List ℕ → List ℕ → String
unfolding without is_empty
failure_status limit left failed_by =
    if leb limit (length failed_by)
    then "failed"
    else if is_empty (without failed_by left)
    then "failed"
    else "soft-failed"

-- The task with a worker that failed it.
unfoldable pub failed_by_worker : ℕ → Task → Task
failed_by_worker id t = record t { failed_by_workers = t.failed_by_workers ++ id ∷ [] }

unfoldable pub on_task_failed : ℕ → List ℕ → ℕ → Task → Update → Task × Update
unfolding failure_status failed_by_worker
on_task_failed limit left id task u =
    let failed = failed_by_worker id task in
    let status = failure_status limit left failed.failed_by_workers in
    (
      record failed { status = status },
      record u { task_status = status; failed_by_workers = failed.failed_by_workers },
    )

-- `maybeBlacklistWorker` but for its updates of other tasks: whether the worker is put on the blacklist, from the number
-- of the tasks of its that failed before, and the workers that are left without it.
unfoldable pub is_blacklisted : ℕ → ℕ → Bool
is_blacklisted threshold failed_before = leb threshold (failed_before + 1)

unfoldable pub others : ℕ → List ℕ → List ℕ
unfolding without
others id left = without (id ∷ []) left

-- The update with which a task that had failed softly fails for good; the message is the activity and the tail.
unfoldable pub hard_failing : String → List ℕ → Update
hard_failing message bytes = record {
  task_status = "failed";
  activity = message;
  log = [];
  log_tail = bytes;
  failed_by_workers = [];
  is_manager_local = false;
}

-- The tasks that are failed for good when a worker is put on the blacklist and none is left: those of the
-- worker that were found as failed, softly or not, and that are not failed yet.
unfoldable pub to_hard_fail : ℕ → ℕ → Bool → List ℕ → List Task → List Task
unfolding is_blacklisted is_empty
to_hard_fail threshold failed_before added left found =
    if is_blacklisted threshold failed_before && added && is_empty left
    then filter (λ t. not (t.status == "failed")) found
    else []

unfoldable pub hard_fail : String → List ℕ → Answers → Task → Queued
unfolding hard_failing queue_task_update
hard_fail message bytes a t = queue_task_update t (hard_failing message bytes) a (some t)

-- What the manager knows when a task fails; the last three are the message about the blacklist, its bytes, and
-- the answers to the updates of the other tasks.
pub record Failing : Type 0 where
  pub limit : ℕ
  pub threshold : ℕ
  pub failed_before : ℕ
  pub added : Bool
  pub left : List ℕ
  pub found : List Task
  pub message : String
  pub message_bytes : List ℕ
  pub others_answers : Task → Answers

-- The answers to a worker's update, with what is queued for its task and for others; `panicked` is the failure at a task that is nobody's.
pub data Reply : Type 0 where
  not_found conflict panicked : Reply
  stored_with : Queued → List Queued → Reply

-- `WorkerPingedTask` on the task.
unfoldable pub pinged : Bool → ℕ → Task → Task
pinged true id t = record t { worker_id = some id }
pinged false id t = t

-- A task that may not run keeps its status and its activity.
unfoldable pub accepted : Task → Update → Update
unfolding is_runnable_task_status
accepted task u =
    if is_runnable_task_status task.status then u else record u { task_status = ""; activity = "" }

-- The extra updates of a failure.
unfoldable pub queue_failed : Failing → ℕ → Task → Update → Answers → Option Task → Queued
unfolding on_task_failed others failed_by_worker queue_task_update_with_extra is_manager_local_task
queue_failed f id task u a stored =
    let (failed, v) = on_task_failed f.limit (others id f.left) id task u in
    queue_task_update_with_extra failed
      (record v { is_manager_local = is_manager_local_task failed }) (failed_by_worker id) a stored

-- The updates of `maybeBlacklistWorker`.
unfoldable pub hard_failed : Failing → ℕ → List Queued
unfolding hard_fail to_hard_fail others
hard_failed f id =
    map (λ t. hard_fail f.message f.message_bytes (f.others_answers t) t)
      (to_hard_fail f.threshold f.failed_before f.added (others id f.left) f.found)

-- A failure that is reported of a task that is assigned to a worker or to none: the pointer is followed.
unfoldable pub queue_failure : Failing → Option ℕ → Task → Update → Answers → Task → Reply
unfolding queue_failed hard_failed
queue_failure f none task u a stored = panicked
queue_failure f (some id) task u a stored =
    stored_with (queue_failed f id task u a (some stored)) (hard_failed f id)

-- The end of `QueueTaskUpdateFromWorker`, with the update that is accepted.
unfoldable pub queue_accepted : Failing → Task → Update → Answers → Task → Reply
unfolding queue_failure queue_task_update is_manager_local_task
queue_accepted f task u a stored =
    if u.task_status == "failed"
    then queue_failure f task.worker_id task u a stored
    else stored_with
        (queue_task_update task (record u { is_manager_local = is_manager_local_task task }) a
          (some stored))
        []

-- `QueueTaskUpdateFromWorker`, for a worker that was found.
unfoldable pub queue_task_update_from_worker :
    Failing → ℕ → Update → Bool → Answers → Option Task → Reply
unfolding of_other_worker pinged accepted queue_accepted
queue_task_update_from_worker f id u ping a none = not_found
queue_task_update_from_worker f id u ping a (some task) =
    if of_other_worker id task.worker_id
    then conflict
    else queue_accepted f task (accepted task u) a (pinged ping id task)
