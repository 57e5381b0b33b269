-- ===== src/Manager/Tasks/Failed.antt =====
-- When a task that a worker failed may be tried by another worker.
use flamenco_manager.Common.{
  ℕ, ◌+◌, ◌<◌, String, Bool, true, false, not, some, List, [], ◌∷◌, ◌++◌, if◌then◌else◌, ◌==◌,
  nat_eq_iff, length, ◌≡◌, refl, inl, inr, ◌⊎◌, ◌↔◌, ap, ◌∙◌, eq_iff,
}
use mathlib.Core.Bool.{false≢true}
use flamenco_manager.Manager.Worker.Asking.{of_other_worker, is_runnable_task_status}
use flamenco_manager.Manager.Tasks.{
  Task, Update, Answers, Queued, trimmed, construct_updates_on_task, with_status,
  task_status_transition_valid, valid_for_cancel_requested, is_manager_local_task,
}
use flamenco_manager.Manager.Tasks.FromWorker.{
  Failing, Reply, queue_task_update_from_worker, queue_accepted, queue_failed, accepted, pinged,
  stored_with, hard_failed, failed_by_worker, on_task_failed, others, queue_failure,
}
use flamenco_manager.Manager.Tasks.Errors.{all_well}
use flamenco_manager.Manager.Tasks.Handed.{stored_well, construct-SameWorkers}
use flamenco_manager.Manager.Tasks.Stored.{construct-status}
use flamenco_manager.Manager.Tasks.Left.{
  failure_status-cases, OthersLeft, failed_status, failed_status_iff,
}

queue_accepted-failed :
    (f : Failing) (id : ℕ) (u : Update) (a : Answers) (t stored : Task)
    → t.worker_id ≡ some id
    → u.task_status ≡ "failed"
    → queue_accepted f t u a stored
      ≡ stored_with (queue_failed f id t u a (some stored)) (hard_failed f id)
unfolding queue_accepted queue_failure
queue_accepted-failed f id u a t stored own failed =
    let named = (eq_iff u.task_status "failed").1 failed in
    taken _ _ (u.task_status == "failed") named ∙ ap (λ o. queue_failure f o t u a stored) own
  where
    taken : (x y : Reply) (b : Bool) → b ≡ true → (if b then x else y) ≡ x
    taken x y true e = refl
    taken x y false e = absurd (false≢true e)

of_self : (id : ℕ) → of_other_worker id (some id) ≡ false
unfolding of_other_worker
of_self id = ap not ((nat_eq_iff id id).1 refl)

-- A worker's update of its active task is accepted as it is.
own_update :
    (f : Failing) (id : ℕ) (u : Update) (ping : Bool) (a : Answers) (t : Task)
    → t.status ≡ "active"
    → t.worker_id ≡ some id
    → queue_task_update_from_worker f id u ping a (some t)
      ≡ queue_accepted f t u a (pinged ping id t)
unfolding queue_task_update_from_worker accepted is_runnable_task_status
own_update f id u ping a t active own =
    let mine : of_other_worker id t.worker_id ≡ false = ap (of_other_worker id) own ∙ of_self id in
    rw (mine, (eq_iff t.status "active").1 active) refl

pinged-failed_by :
    (ping : Bool) (id : ℕ) (t : Task) → (pinged ping id t).failed_by_workers ≡ t.failed_by_workers
unfolding pinged
pinged-failed_by true id t = refl
pinged-failed_by false id t = refl

-- A failure may be stored over itself.
with_status-failed :
    (s : String) (t : Task) → (s ≡ "failed") ⊎ (s ≡ "soft-failed") → (with_status s s t).status ≡ s
unfolding with_status task_status_transition_valid valid_for_cancel_requested
with_status-failed s t (inl e) = rw e refl
with_status-failed s t (inr e) = rw e refl

-- What is stored of a failed task.
queue_failed-stored :
    (f : Failing) (id : ℕ) (u : Update) (t stored : Task)
    → (v : Task) × ((queue_failed f id t u all_well (some stored)).stored ≡ some v)
      × (v.failed_by_workers ≡ stored.failed_by_workers ++ id ∷ [])
      × (v.status ≡ failed_status f id t)
unfolding queue_failed on_task_failed failed_by_worker trimmed construct_updates_on_task
queue_failed-stored f id u t stored =
    let s : String = failed_status f id t in
    let failed : Task = record (failed_by_worker id t) { status = s } in
    let w : Update = record u {
      task_status = s;
      failed_by_workers = t.failed_by_workers ++ id ∷ [];
      is_manager_local = is_manager_local_task failed;
    } in
    (
      _,
      stored_well failed w (failed_by_worker id) stored,
      (construct-SameWorkers s (trimmed w) (failed_by_worker id stored)).1,
      construct-status s (trimmed w) (failed_by_worker id) stored
          ∙ with_status-failed s _
              (failure_status-cases f.limit (others id f.left) (t.failed_by_workers ++ id ∷ [])),
    )

-- Let a worker report that it failed its active task, and let nothing else fail. Then the worker is added to
-- those that failed the task, and the task has failed softly exactly when these are fewer than the
-- limit and some worker that may still run such tasks is neither this one nor has failed the task
-- before; otherwise it has failed.
pub queue_task_update_from_worker-soft_failed_iff :
    (f : Failing) (id : ℕ) (u : Update) (ping : Bool) (t : Task)
    → t.status ≡ "active"
    → t.worker_id ≡ some id
    → u.task_status ≡ "failed"
    → (q : Queued) × (rest : List Queued) × (queue_task_update_from_worker f id u ping all_well
          (some t)
        ≡ stored_with q rest)
      × ((v : Task) × (q.stored ≡ some v)
          × (v.failed_by_workers ≡ t.failed_by_workers ++ id ∷ [])
          × ((v.status ≡ "failed") ⊎ (v.status ≡ "soft-failed"))
          × ((v.status ≡ "soft-failed")
              ↔ ((length t.failed_by_workers + 1 < f.limit) × OthersLeft f id t)))
queue_task_update_from_worker-soft_failed_iff f id u ping t active own failed =
    let stored : Task = pinged ping id t in
    let (v, e, by, status) = queue_failed-stored f id u t stored in
    (
      queue_failed f id t u all_well (some stored),
      hard_failed f id,
      own_update f id u ping all_well t active own
          ∙ queue_accepted-failed f id u all_well t stored own failed,
      (
        v,
        e,
        by ∙ ap (λ l. l ++ id ∷ []) (pinged-failed_by ping id t),
        rw status
            (failure_status-cases f.limit (others id f.left) (t.failed_by_workers ++ id ∷ [])),
        rw status (failed_status_iff f id t),
      ),
    )
