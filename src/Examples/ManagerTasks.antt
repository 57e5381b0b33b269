-- ===== src/Examples/ManagerTasks.antt =====
-- The manager's tasks at concrete inputs.
use flamenco_manager.Common.{
  ℕ, ◌+◌, ◌≤◌, ◌<◌, String, ◌≡◌, ◌≢◌, ◌↔◌, ◌⊎◌, refl, true, false, none, some, List, [], ◌∷◌, ◌++◌,
  arith, eq_iff, length,
}
use mathlib.Core.List.{Memᴰ}
use flamenco_manager.Manager.Worker.Asking.{of_other_worker}
use flamenco_manager.Manager.Tasks.{
  Task, Update, Answers, Queued, insert_failed, write_failed, Event, store, trimmed,
  queue_task_update_with_extra, construct_updates_on_task, log_events, write_and_update,
}
use flamenco_manager.Manager.Tasks.LogTail.{trim_space, trim_log_for_task_update}
use flamenco_manager.Manager.Tasks.Tail.{line_ends, trim_log_for_task_update-tail}
use flamenco_manager.Manager.Tasks.FromWorker.{Failing, stored_with, queue_task_update_from_worker}
use flamenco_manager.Manager.Tasks.Handing.{
  Texts, assign_task_to_worker, timeout_task, cancel_task, queue_task_cancel, cancel_projection,
}
use flamenco_manager.Manager.Tasks.Errors.{all_well, queue_task_update_with_extra-error}
use flamenco_manager.Manager.Tasks.Ordered.{
  IsSent, IsLogged, IsRotated, queue_task_update_with_extra-order,
}
use flamenco_manager.Manager.Tasks.Stored.{queue_task_update_from_worker-kept}
use flamenco_manager.Manager.Tasks.Cancelled.{cancelled, Change-cancel_requested}
use flamenco_manager.Manager.Tasks.Handed.{assign_task_to_worker-active}
use flamenco_manager.Manager.Tasks.Failed.{queue_task_update_from_worker-soft_failed_iff}

-- A task of the fourth worker, which the second one failed.
abbrev task : String → Task
task status = record {
  status = status;
  activity = "";
  worker_id = some 4;
  failed_by_workers = 2 ∷ [];
  job_known = true;
  job_type = "render";
}

abbrev update : String → Update
update status = record {
  task_status = status;
  activity = "rendering";
  log = b'a' ∷ [];
  log_tail = [];
  failed_by_workers = [];
  is_manager_local = false;
}

abbrev fine : Answers
fine = record { inserted = true; written = true; updated = true }

-- The log cannot be written.
abbrev full_disk : Answers
full_disk = record { inserted = true; written = false; updated = true }

abbrev texts : Texts
texts = record { activity = "returned"; log = b'r' ∷ [] }

abbrev active : Update
active = update "active"

queue_task_update_with_extra-order_example :
    let q =
      queue_task_update_with_extra (task "queued") active (λ t. t) fine (some (task "queued")) in
    let new = construct_updates_on_task "queued" (trimmed active) (λ t. t) (task "queued") in
    (sending logging rotating : List Event) × (q.events
      ≡ (sending ++ logging) ++ store new ∷ rotating)
    × (q.stored ≡ some new)
    × (q.error ≡ none)
    × IsSent active sending
    × IsLogged (task "queued") active.log logging
    × IsRotated (task "queued") "active" rotating
queue_task_update_with_extra-order_example =
    queue_task_update_with_extra-order (task "queued") active (λ t. t) (task "queued")

abbrev unwritten : Queued
unwritten =
    queue_task_update_with_extra (task "active") (update "completed") (λ t. t) full_disk
      (some (task "active"))

is_unwritten : unwritten.error ≡ some write_failed
unfolding queue_task_update_with_extra log_events write_and_update
is_unwritten = refl

queue_task_update_with_extra-error_example :
    (unwritten.stored ≡ some (task "active"))
    × (write_failed ≡ insert_failed → unwritten.events ≡ [])
queue_task_update_with_extra-error_example =
    queue_task_update_with_extra-error (task "active") (update "completed") (λ t. t) full_disk
      (some (task "active")) write_failed is_unwritten

-- A task is tried at most three times, and the workers five and four are left.
abbrev failing : Failing
failing = record {
  limit = 3;
  threshold = 3;
  failed_before = 0;
  added = true;
  left = 5 ∷ 4 ∷ [];
  found = [];
  message = "blacklisted";
  message_bytes = [];
  others_answers = λ t. fine;
}

ending : (task "cancel-requested").status ≢ "active"
ending e = ground (arith, eq_iff "cancel-requested" "active", e)

queue_task_update_from_worker-kept_example :
    (q : Queued) × (queue_task_update_from_worker failing 4
        (update "canceled")
        true
        fine
        (some (task "cancel-requested"))
      ≡ stored_with q [])
    × ((v : Task) × (q.stored ≡ some v) × (v.status ≡ (task "cancel-requested").status))
unfolding of_other_worker
queue_task_update_from_worker-kept_example =
    queue_task_update_from_worker-kept failing 4 (update "canceled") true fine
      (task "cancel-requested") refl ending

abbrev gone : Task
gone = record (task "canceled") { activity = "returned" }

is_cancelled : cancel_task texts true fine fine (some (task "cancel-requested")) ≡ some gone
unfolding cancel_task queue_task_cancel cancel_projection construct_updates_on_task
is_cancelled = refl

Change-cancel_requested_example : (gone.status ≡ "cancel-requested") ⊎ (gone.status ≡ "canceled")
Change-cancel_requested_example =
    Change-cancel_requested (task "cancel-requested") gone
      (cancelled texts true fine fine is_cancelled) refl

assign_task_to_worker-active_example :
    (v : Task) × ((assign_task_to_worker 4 all_well
        (task "active")
        (some (task "cancel-requested"))).stored
      ≡ some v)
    × (v.status ≡ "active")
    × (v.worker_id ≡ some 4)
assign_task_to_worker-active_example =
    assign_task_to_worker-active 4 (task "active") (task "cancel-requested")

abbrev local : Task
local = record (task "active") { job_type = "manager-local" }

abbrev timed_out : Queued
timed_out = (timeout_task 4 texts texts all_well all_well local).1

queue_task_update_from_worker-soft_failed_iff_example :
    (q : Queued) × (rest : List Queued) × (queue_task_update_from_worker failing 4
        (update "failed")
        true
        all_well
        (some (task "active"))
      ≡ stored_with q rest)
    × ((v : Task) × (q.stored ≡ some v)
        × (v.failed_by_workers ≡ 2 ∷ 4 ∷ [])
        × ((v.status ≡ "failed") ⊎ (v.status ≡ "soft-failed"))
        × ((v.status ≡ "soft-failed") ↔ (
            (length (task "active").failed_by_workers + 1 < 3)
            × ((i : ℕ) × Memᴰ i (5 ∷ 4 ∷ []) × (i ≢ 4) × (Memᴰ i (2 ∷ []) → ⊥)))))
queue_task_update_from_worker-soft_failed_iff_example =
    queue_task_update_from_worker-soft_failed_iff failing 4 (update "failed") true (task "active")
      refl refl refl

-- Two lines with white space around.
abbrev log : List ℕ
log = b' ' ∷ b'a' ∷ b'\n' ∷ b'b' ∷ b'\n' ∷ []

has_log : log ≢ []
has_log e = cc

trim_log_for_task_update-tail_example :
    (before tail : List ℕ) × (trim_space log ≡ before ++ tail)
    × (trim_log_for_task_update log ≡ tail ++ b'\n' ∷ [])
    × (line_ends (trim_log_for_task_update log) ≤ 10)
    × (line_ends (trim_space log) < 10 → tail ≡ trim_space log)
trim_log_for_task_update-tail_example = trim_log_for_task_update-tail log has_log
