-- ===== src/Manager/Tasks/Handed.antt =====
-- What is stored of a task when nothing fails: where it is cancelled, and where it is handed to a worker.
use flamenco_manager.Manager.Worker.Asking.{of_other_worker}
use flamenco_manager.Common.{
  ℕ, String, Bool, true, false, some, List, ◌∷◌, ◌++◌, if◌then◌else◌, ◌==◌, ◌≡◌, refl, inl, inr,
  Bool-cases, sym, ap, ◌∙◌, subst,
}
use flamenco_manager.Manager.Tasks.{
  Task, Update, Queued, trimmed, queue_task_update, queue_task_update_with_extra,
  construct_updates_on_task, with_status, with_activity, task_status_transition_valid,
  valid_for_cancel_requested, is_manager_local_task, Event, enqueue, log_events, rotation_events,
  store,
}
use flamenco_manager.Manager.Tasks.Handing.{
  Texts, cancel_task, queue_task_cancel, cancel_projection, return_task, timeout_task,
  assign_task_to_worker, update_to, nothing_done, no_texts, fail_timed_out, projected_task,
}
use flamenco_manager.Manager.Tasks.Errors.{all_well, queue_task_update_with_extra-events, sent}
use flamenco_manager.Manager.Tasks.Cancelled.{update_to-status}

pub stored_well :
    (task : Task) (u : Update) (extra : Task → Task) (t : Task)
    → (queue_task_update_with_extra task u extra all_well (some t)).stored
      ≡ some (construct_updates_on_task task.status (trimmed u) extra t)
stored_well task u extra t = ap (λ q. q.stored) (queue_task_update_with_extra-events task u extra t)

-- The same worker is assigned to both tasks, and the same workers failed them.
abbrev pub SameWorkers : Task → Task → Type 0
SameWorkers v t = (v.worker_id ≡ t.worker_id) × (v.failed_by_workers ≡ t.failed_by_workers)

if-SameWorkers :
    (b : Bool) (u v t : Task)
    → SameWorkers u t
    → SameWorkers v t
    → SameWorkers (if b then u else v) t
if-SameWorkers true u v t h k = h
if-SameWorkers false u v t h k = k

pub construct-SameWorkers :
    (current : String) (u : Update) (t : Task)
    → SameWorkers (construct_updates_on_task current u (λ v. v) t) t
unfolding construct_updates_on_task with_status with_activity
construct-SameWorkers current u t = if-SameWorkers (u.activity == "") _ _ t status status
  where
    status : SameWorkers (with_status current u.task_status t) t
    status =
        if-SameWorkers (u.task_status == "") _ _ t (refl, refl)
          (if-SameWorkers (task_status_transition_valid current u.task_status) _ _ t (refl, refl)
            (refl, refl))

updated_well :
    (task : Task) (u : Update) (t : Task)
    → (queue_task_update task u all_well (some t)).stored
      ≡ some (construct_updates_on_task task.status (trimmed u) (λ v. v) t)
unfolding queue_task_update
updated_well task u t = stored_well task u (λ v. v) t

cancelled_well :
    (texts : Texts) (task t : Task)
    → (v : Task) × ((queue_task_cancel texts all_well all_well task (some t)).1.stored ≡ some v)
      × (v.status ≡ "canceled")
      × SameWorkers v t
unfolding queue_task_cancel valid_for_cancel_requested
cancelled_well texts task t =
    let note : Update = update_to "" texts (is_manager_local_task task) in
    let last : Update = update_to "canceled" no_texts false in
    let noted : Task = construct_updates_on_task task.status (trimmed note) (λ v. v) t in
    let ended : Task = construct_updates_on_task task.status (trimmed last) (λ v. v) noted in
    let (w, f) = construct-SameWorkers task.status (trimmed note) t in
    let (x, g) = construct-SameWorkers task.status (trimmed last) noted in
    (
      ended,
      rw (updated_well task note t) (updated_well task last noted),
      update_to-status "canceled" no_texts false task noted refl refl,
      (x ∙ w, g ∙ f),
    )

-- A known task that the server wants cancelled, when nothing fails, is marked for that if a worker runs it, and is
-- cancelled at once otherwise; the workers that failed it and the one that it is assigned to stay as they
-- were. So a second wish to cancel it cancels it without waiting for its worker.
pub cancel_task-status :
    (texts : Texts) (t : Task)
    → (v : Task) × (cancel_task texts true all_well all_well (some t) ≡ some v)
      × (v.status ≡ (if t.status == "active" then "cancel-requested" else "canceled"))
      × SameWorkers v t
unfolding cancel_task
cancel_task-status texts t = elim (Bool-cases (t.status == "active")) [
  | inl y ↦ rw y (record t { status = "cancel-requested" }, refl, refl, (refl, refl))
  | inr n ↦ rw n (cancelled_well texts (cancel_projection t) t)
]

-- A task that is assigned to a worker, when nothing fails, becomes active and the worker's in the database
-- whatever its status there is, also when the server has just asked to cancel it: the copy in memory that
-- the status is compared with is active by then.
pub assign_task_to_worker-active :
    (id : ℕ) (task t : Task)
    → (v : Task) × ((assign_task_to_worker id all_well task (some t)).stored ≡ some v)
      × (v.status ≡ "active")
      × (v.worker_id ≡ some id)
unfolding assign_task_to_worker queue_task_update_with_extra
assign_task_to_worker-active id task t =
    let extra : Task → Task = λ v. record v { worker_id = some id } in
    let u : Update = update_to "active" no_texts (is_manager_local_task task) in
    (
      _,
      stored_well (record task { status = "active" }) u extra t,
      unfold construct_updates_on_task with_status with_activity task_status_transition_valid in
          refl,
      refl,
    )

-- A task is still stored after it may have been returned.
returned_well :
    (id : ℕ) (texts : Texts) (t : Task)
    → (v : Task) × ((return_task id texts all_well t (some t)).stored ≡ some v)
unfolding return_task nothing_done
returned_well id texts t = elim (Bool-cases (of_other_worker id t.worker_id)) [
  | inl y ↦ (t, rw y refl)
  | inr n ↦ elim (Bool-cases (t.status == "active")) [
    | inl a ↦
        let u : Update = update_to "claimed-by-manager" texts (is_manager_local_task t) in
        (
          construct_updates_on_task "claimed-by-manager" (trimmed u) (λ v. v) t,
          rw (n, a) (updated_well (record t { status = "claimed-by-manager" }) u t),
        )
    | inr m ↦ (t, rw (n, m) refl)
  ]
]

abbrev FailsFor : Queued → Type 0
FailsFor q =
    (v : Task) × (q.stored ≡ some v)
    × (v.status ≡ "failed")
    × ((u : Update) × (rest : List Event) × (q.events ≡ enqueue u ∷ rest)
        × (u.task_status ≡ "failed"))

failed_well :
    (texts : Texts) (t v : Task)
    → FailsFor (fail_timed_out texts all_well (projected_task t) (some v))
unfolding fail_timed_out projected_task valid_for_cancel_requested queue_task_update sent update_to
failed_well texts t v =
    let u : Update = update_to "failed" texts false in
    let task : Task = projected_task t in
    let ended : Task = construct_updates_on_task task.status (trimmed u) (λ x. x) v in
    (
      ended,
      updated_well task u v,
      update_to-status "failed" texts false (projected_task t) v refl refl,
      (
        trimmed u,
        log_events task texts.log ++ store ended ∷ rotation_events task "failed",
        ap (λ q. q.events) (queue_task_update_with_extra-events task u (λ x. x) v),
        refl,
      ),
    )

-- A task of a worker that the manager finds, when nothing fails, has failed in the database once it has timed out;
-- and the last update is sent to the server even if the task is local to the manager, because the copy in
-- memory does not have the type of its job.
pub timeout_task-failed :
    (id : ℕ) (returning failing : Texts) (t : Task)
    → let (back, q) = timeout_task id returning failing all_well all_well t in FailsFor q
unfolding timeout_task
timeout_task-failed id returning failing t =
    let (v, e) = returned_well id returning t in
    subst (λ o. FailsFor (fail_timed_out failing all_well (projected_task t) o)) (sym e)
      (failed_well failing t v)
