-- ===== src/Manager/Tasks/Stored.antt =====
-- What an update leaves of a task in the database, whatever fails, and that a worker cannot change a task that
-- may not run.
use flamenco_manager.Common.{
  ℕ, String, Bool, true, false, Option, some, List, [], ◌∷◌, ◌++◌, if◌then◌else◌, ◌==◌, ◌≡◌, ◌≢◌,
  refl, inl, inr, Bool-cases, ◌∙◌, arith, eq_iff, subst, sym,
}
use flamenco_manager.Manager.Worker.Asking.{of_other_worker, is_runnable_task_status}
use flamenco_manager.Manager.Tasks.{
  Task, Update, Answers, Queued, update_task, write_and_update, trimmed, queue_task_update,
  queue_task_update_with_extra, construct_updates_on_task, with_status, with_activity, Event,
  is_manager_local_task,
}
use flamenco_manager.Manager.Tasks.FromWorker.{
  Failing, queue_task_update_from_worker, queue_accepted, accepted, pinged, stored_with,
}

-- A property of the task in the database that an update has or does not have.
module _ (P : Task → Type 0) where
  abbrev pub Holds : Option Task → Type 0
  Holds o = (v : Task) × (o ≡ some v) × P v

  update_task-Holds :
      (task : Task) (u : Update) (extra : Task → Task) (updated : Bool) (before : List Event)
      (t : Task)
      → P t
      → P (construct_updates_on_task task.status u extra t)
      → Holds (update_task task u extra updated before (some t)).stored
  unfolding update_task
  update_task-Holds task u extra true before t h k =
      (construct_updates_on_task task.status u extra t, refl, k)
  update_task-Holds task u extra false before t h k = (t, refl, h)

  if-Holds :
      (b : Bool) (p q : Queued)
      → Holds p.stored
      → Holds q.stored
      → Holds (if b then p else q).stored
  if-Holds true p q h k = h
  if-Holds false p q h k = k

  write_and_update-Holds :
      (task : Task) (u : Update) (logged : List Event) (extra : Task → Task) (a : Answers)
      (before : List Event) (t : Task)
      → P t
      → P (construct_updates_on_task task.status u extra t)
      → Holds (write_and_update task u logged extra a before (some t)).stored
  unfolding write_and_update
  write_and_update-Holds task u [] extra a before t h k =
      update_task-Holds task u extra a.updated before t h k
  write_and_update-Holds task u (l ∷ ls) extra a before t h k =
      if-Holds a.written _ _ (update_task-Holds task u extra a.updated (before ++ l ∷ ls) t h k)
        (t, refl, h)

  -- Whatever fails, the task is as it was or is updated.
  pub queue_task_update_with_extra-Holds :
      (task : Task) (u : Update) (extra : Task → Task) (a : Answers) (t : Task)
      → P t
      → P (construct_updates_on_task task.status (trimmed u) extra t)
      → Holds (queue_task_update_with_extra task u extra a (some t)).stored
  unfolding queue_task_update_with_extra
  queue_task_update_with_extra-Holds task u extra a t h k =
      if-Holds u.is_manager_local _ _ (write_and_update-Holds task (trimmed u) _ extra a _ t h k) (
        if-Holds a.inserted _ _ (write_and_update-Holds task (trimmed u) _ extra a _ t h k)
          (t, refl, h))

  -- The same for an update without extra changes, of a task that has the property already.
  pub queue_task_update-Holds :
      (task : Task) (u : Update) (a : Answers) (o : Option Task)
      → Holds o
      → ((t : Task) → P t → P (construct_updates_on_task task.status (trimmed u) (λ v. v) t))
      → Holds (queue_task_update task u a o).stored
  unfolding queue_task_update
  queue_task_update-Holds task u a o (t, e, h) k =
      subst (λ s. Holds (queue_task_update task u a s).stored) (sym e)
        (queue_task_update_with_extra-Holds task u (λ v. v) a t h (k t h))

with_activity-status : (s : String) (t : Task) → (with_activity s t).status ≡ t.status
unfolding with_activity
with_activity-status s t = elim (Bool-cases (s == "")) [ inl y ↦ rw y refl | inr n ↦ rw n refl ]

-- The status after an update of a task: the new one, if there is one and the change is valid.
pub construct-status :
    (current : String) (u : Update) (extra : Task → Task) (t : Task)
    → (construct_updates_on_task current u extra t).status
      ≡ (with_status current u.task_status (extra t)).status
unfolding construct_updates_on_task
construct-status current u extra t =
    with_activity-status u.activity (with_status current u.task_status (extra t))

-- An update of a task that may not run.
abbrev without_status : Update → Bool → Update
without_status u local = record u { task_status = ""; activity = ""; is_manager_local = local }

pub pinged-status : (ping : Bool) (id : ℕ) (t : Task) → (pinged ping id t).status ≡ t.status
unfolding pinged
pinged-status true id t = refl
pinged-status false id t = refl

without_status-Holds :
    (task : Task) (u : Update) (local : Bool) (a : Answers) (t : Task) (s : String)
    → t.status ≡ s
    → Holds (λ v. v.status ≡ s) (queue_task_update task (without_status u local) a (some t)).stored
unfolding queue_task_update trimmed with_status
without_status-Holds task u local a t s h =
    queue_task_update_with_extra-Holds (λ v. v.status ≡ s) task (without_status u local) (λ v. v) a
      t h (construct-status task.status (trimmed (without_status u local)) (λ v. v) t ∙ h)

-- A worker's update of a task that it may update but that may not run is queued, but whatever becomes of
-- it, the task's status stays as it is in the database; so a worker that reports a task cancelled, failed
-- or completed when the server has asked to cancel it has no effect on that.
pub queue_task_update_from_worker-kept :
    (f : Failing) (id : ℕ) (u : Update) (ping : Bool) (a : Answers) (t : Task)
    → of_other_worker id t.worker_id ≡ false
    → t.status ≢ "active"
    → (q : Queued) × (queue_task_update_from_worker f id u ping a (some t) ≡ stored_with q [])
      × ((v : Task) × (q.stored ≡ some v) × (v.status ≡ t.status))
unfolding queue_task_update_from_worker queue_accepted accepted is_runnable_task_status
queue_task_update_from_worker-kept f id u ping a t own idle =
    let stays : (t.status == "active") ≡ false = ground (arith, eq_iff t.status "active") in
    let local : Bool = is_manager_local_task t in
    (
      queue_task_update t (without_status u local) a (some (pinged ping id t)),
      rw (own, stays) refl,
      without_status-Holds t u local a (pinged ping id t) t.status (pinged-status ping id t),
    )
