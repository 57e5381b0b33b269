-- ===== src/Manager/Worker/Requests.antt =====
-- How a request reaches the worker, and what it does to a task that is running.
use flamenco_manager.Common.{
  String, true, false, Option, none, some, if◌then◌else◌, ℕ, ◌≡◌, refl, sym, inl, inr, ◌↔◌, ◌⊎◌,
  eq_iff, arith, Bool-cases, subst,
}
use mathlib.Core.Option.{some-injective, none-ne-some}
use flamenco_manager.Manager.Worker.{Worker, runnable}
use flamenco_manager.Manager.Worker.Asking.{
  Task, is_runnable_task_status, of_other_worker, worker_may_run_task, status_requested_now,
}

abbrev LetsRun : Worker → Type 0
LetsRun w =
    (w.status_requested ≡ "")
    ⊎ (w.lazy_status_request ≡ true)
    ⊎ (w.status_requested ≡ "awake")
    ⊎ (w.status_requested ≡ "testing")

abbrev IsFor : ℕ → Task → Type 0
IsFor worker_id t = ((t.worker_id ≡ none) ⊎ (t.worker_id ≡ some worker_id)) × (t.status ≡ "active")

runnable_name_iff :
    (s : String) → (runnable s ≡ true) ↔ ((s ≡ "awake") ⊎ (s ≡ "testing") ⊎ (s ≡ ""))
unfolding runnable
runnable_name_iff s = ground (arith, eq_iff s "awake", eq_iff s "testing", eq_iff s "")

-- The request that counts is the one that was made, or none.
requested_now :
    (w : Worker)
    → status_requested_now w ≡ (if w.lazy_status_request then "" else w.status_requested)
unfolding status_requested_now
requested_now w = elim (Bool-cases w.lazy_status_request) [
  | inl l ↦ rw l (ground arith)
  | inr n ↦ rw n (ground (arith, eq_iff w.status_requested ""))
]

runnable_iff : (w : Worker) → (runnable (status_requested_now w) ≡ true) ↔ LetsRun w
runnable_iff w = elim (Bool-cases w.lazy_status_request) [
  | inl l ↦ rw (requested_now w, l) (ground (arith, runnable_name_iff ""))
  | inr n ↦ rw (requested_now w, n) (ground (arith, runnable_name_iff w.status_requested))
]

of_other_worker_iff :
    (worker_id : ℕ) (o : Option ℕ)
    → (of_other_worker worker_id o ≡ false) ↔ ((o ≡ none) ⊎ (o ≡ some worker_id))
unfolding of_other_worker
of_other_worker_iff worker_id none = ground arith
of_other_worker_iff worker_id (some id) = grind (arith, some-injective id worker_id)

found_task_iff :
    (worker_id : ℕ) (w : Worker) (t : Task)
    → (worker_may_run_task worker_id w (some t) ≡ none) ↔ (IsFor worker_id t × LetsRun w)
unfolding worker_may_run_task is_runnable_task_status
found_task_iff worker_id w t =
    ground
      (arith, runnable_iff w, of_other_worker_iff worker_id t.worker_id, eq_iff t.status "active")

-- A worker may keep running a task exactly when the task is known, it is assigned to no other worker, its
-- status is "active", and the status that is requested of the worker, if any, is lazy or one in which it
-- runs tasks.
pub worker_may_run_task_iff :
    (worker_id : ℕ) (w : Worker) (task : Option Task)
    → (worker_may_run_task worker_id w task ≡ none)
      ↔ ((t : Task) × (task ≡ some t) × (IsFor worker_id t × LetsRun w))
unfolding worker_may_run_task
worker_may_run_task_iff worker_id w none =
    (λ h. absurd (none-ne-some _ (sym h)), λ (t, e, p). absurd (none-ne-some _ e))
worker_may_run_task_iff worker_id w (some t) = (
  λ h. (t, refl, (found_task_iff worker_id w t).0 h),
  λ (u, e, p).
      (found_task_iff worker_id w t).1
        (subst (λ v. IsFor worker_id v × LetsRun w) (sym (some-injective t u e)) p),
)
