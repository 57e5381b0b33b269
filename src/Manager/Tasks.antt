-- ===== src/Manager/Tasks.antt =====
-- flamenco/task_updates.go: the queue of task updates, and what an update does to the manager's own copy of the
-- task. Each operation of the database and of the file system is told whether it succeeds.
pub mod LogTail
pub mod FromWorker
pub mod Handing
pub mod Errors
pub mod Ordered
pub mod Stored
pub mod Cancelled
pub mod Handed
pub mod Left
pub mod Failed
pub mod Tail
use flamenco_manager.Common.{
  ℕ, String, Bool, true, false, not, ◌&&◌, ◌||◌, Option, none, some, List, [], ◌∷◌, ◌++◌,
  if◌then◌else◌, ◌==◌, nat_eq,
}
use mathlib.Core.Option
use flamenco_manager.Manager.Tasks.LogTail.{trim_log_for_task_update}

-- The fields of `Task` that decide what happens to it; `job_known` is that its job is not `unknownJobID`.
pub record Task : Type 0 where
  pub status : String
  pub activity : String
  pub worker_id : Option ℕ
  pub failed_by_workers : List ℕ
  pub job_known : Bool
  pub job_type : String

-- `isManagerLocalTask`.
unfoldable pub is_manager_local_task : Task → Bool
is_manager_local_task t = t.job_type == "manager-local"

-- `TaskUpdate`; an unset text is "" and an unset log is empty.
pub record Update : Type 0 where
  pub task_status : String
  pub activity : String
  pub log : List ℕ
  pub log_tail : List ℕ
  pub failed_by_workers : List ℕ
  pub is_manager_local : Bool

-- What is done outside: the update is put in the queue for the server, the log is written, the task is
-- updated in the database, and the log file is rotated.
pub data Event : Type 0 where
  enqueue : Update → Event
  write_log : List ℕ → Event
  store : Task → Event
  rotate_log : Event

pub data QueueError : Type 0 where
  insert_failed write_failed update_failed : QueueError

-- Which of the operations succeed.
pub record Answers : Type 0 where
  pub inserted : Bool
  pub written : Bool
  pub updated : Bool

-- What has happened, the task in the database, and the error.
pub record Queued : Type 0 where
  pub events : List Event
  pub stored : Option Task
  pub error : Option QueueError

-- `validForCancelRequested`.
unfoldable pub valid_for_cancel_requested : String → Bool
valid_for_cancel_requested s = s == "canceled" || s == "failed" || s == "completed"

-- `taskStatusTransitionValid`.
unfoldable pub task_status_transition_valid : String → String → Bool
unfolding valid_for_cancel_requested
task_status_transition_valid current new =
    if valid_for_cancel_requested new then true else not (current == "cancel-requested")

-- The part of `constructUpdatesOnTask` for the status, from the status of the copy in memory.
unfoldable pub with_status : String → String → Task → Task
unfolding task_status_transition_valid
with_status current new t =
    if new == ""
    then t
    else if task_status_transition_valid current new
    then record t { status = new }
    else t

unfoldable pub with_activity : String → Task → Task
with_activity a t = if a == "" then t else record t { activity = a }

-- `constructUpdatesOnTask`, as the change that its document makes; `extra` is that of the extra updates. The log
-- of the update has been cleared by then.
unfoldable pub construct_updates_on_task : String → Update → (Task → Task) → Task → Task
unfolding with_status with_activity
construct_updates_on_task current u extra t =
    with_activity u.activity (with_status current u.task_status (extra t))

-- Whether a text ends with a line end.
unfoldable pub ends_line : List ℕ → Bool
ends_line [] = false
ends_line (c ∷ []) = nat_eq c b'\n'
ends_line (c ∷ d ∷ cs) = ends_line (d ∷ cs)

-- `writeTaskLog`: what it writes.
unfoldable pub log_events : Task → List ℕ → List Event
unfolding ends_line
log_events task [] = []
log_events task (c ∷ cs) =
    if not task.job_known
    then []
    else write_log (if ends_line (c ∷ cs) then c ∷ cs else c ∷ cs ++ b'\n' ∷ []) ∷ []

-- `onTaskStatusMayHaveChanged`, if there is a new status.
unfoldable pub rotation_events : Task → String → List Event
rotation_events task new =
    if new == ""
    then []
    else if task.status == new
    then []
    else if new == "active"
    then rotate_log ∷ []
    else []

-- The end of `QueueTaskUpdateWithExtra`: the update of the task. A task that is not found is not an error.
unfoldable pub update_task :
    Task → Update → (Task → Task) → Bool → List Event → Option Task → Queued
unfolding construct_updates_on_task rotation_events
update_task task u extra updated before none = record {
  events = before ++ rotation_events task u.task_status;
  stored = none;
  error = none;
}
update_task task u extra true before (some t) =
    let new = construct_updates_on_task task.status u extra t in
    record {
      events = before ++ store new ∷ rotation_events task u.task_status;
      stored = some new;
      error = none;
    }
update_task task u extra false before (some t) = record {
  events = before;
  stored = some t;
  error = some update_failed;
}

-- Its middle: the log.
unfoldable pub write_and_update :
    Task → Update → List Event → (Task → Task) → Answers → List Event → Option Task → Queued
unfolding update_task
write_and_update task u [] extra a before stored = update_task task u extra a.updated before stored
write_and_update task u (e ∷ es) extra a before stored =
    if a.written
    then update_task task u extra a.updated (before ++ e ∷ es) stored
    else record { events = before; stored = stored; error = some write_failed }

-- The update as it is queued: with the tail of its log in place of the log.
unfoldable pub trimmed : Update → Update
unfolding trim_log_for_task_update
trimmed u = record u { log = []; log_tail = trim_log_for_task_update u.log }

-- `QueueTaskUpdateWithExtra`, where `task` is the copy in memory.
unfoldable pub queue_task_update_with_extra :
    Task → Update → (Task → Task) → Answers → Option Task → Queued
unfolding trimmed log_events write_and_update
queue_task_update_with_extra task u extra a stored =
    let logged = log_events task u.log in
    if u.is_manager_local
    then write_and_update task (trimmed u) logged extra a [] stored
    else if a.inserted
    then write_and_update task (trimmed u) logged extra a (enqueue (trimmed u) ∷ []) stored
    else record { events = []; stored = stored; error = some insert_failed }

-- `QueueTaskUpdate`.
unfoldable pub queue_task_update : Task → Update → Answers → Option Task → Queued
unfolding queue_task_update_with_extra
queue_task_update task u a stored = queue_task_update_with_extra task u (λ t. t) a stored
