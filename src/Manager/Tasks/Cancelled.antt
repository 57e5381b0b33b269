-- ===== src/Manager/Tasks/Cancelled.antt =====
-- What becomes of a task that the server wants cancelled, by what workers and the server do next.
use flamenco_manager.Common.{
  ℕ, String, Bool, true, false, Option, none, some, List, ◌==◌, ◌≡◌, ◌≢◌, refl, inl, inr, ◌⊎◌,
  Bool-cases, sym, ap, ◌∙◌, arith, eq_iff, subst,
}
use mathlib.Core.Option.{none-ne-some, some-injective}
use flamenco_manager.Manager.Worker.Asking.{of_other_worker}
use flamenco_manager.Manager.Tasks.{
  Task, Update, Answers, Queued, trimmed, queue_task_update, construct_updates_on_task, with_status,
  task_status_transition_valid, valid_for_cancel_requested, is_manager_local_task,
}
use flamenco_manager.Manager.Tasks.FromWorker.{
  Failing, Reply, queue_task_update_from_worker, stored_with,
}
use flamenco_manager.Manager.Tasks.Handing.{
  Texts, cancel_task, queue_task_cancel, cancel_projection, return_task, update_to, nothing_done,
  no_texts,
}
use flamenco_manager.Manager.Tasks.Stored.{
  Holds, construct-status, queue_task_update_from_worker-kept, queue_task_update-Holds,
}

-- What these handlers may do to a task's document, when it does not change between the time that the handler
-- reads it and the time that it updates it: an update from a worker, the return of the task by a worker,
-- and its cancellation by the server.
pub data Change (t : Task) : Task → Type 0 where
  from_worker :
      (f : Failing) (id : ℕ) (u : Update) (ping : Bool) (a : Answers) (q : Queued)
      (others : List Queued) {v : Task}
      → queue_task_update_from_worker f id u ping a (some t) ≡ stored_with q others
      → q.stored ≡ some v
      → Change t v
  returned :
      (id : ℕ) (texts : Texts) (a : Answers) {v : Task}
      → (return_task id texts a t (some t)).stored ≡ some v
      → Change t v
  cancelled :
      (texts : Texts) (marked : Bool) (a b : Answers) {v : Task}
      → cancel_task texts marked a b (some t) ≡ some v
      → Change t v

-- Still to be cancelled, or cancelled.
abbrev pub IsEnding : Task → Type 0
IsEnding t = (t.status ≡ "cancel-requested") ⊎ (t.status ≡ "canceled")

not_from : (s r : String) → (s == r) ≡ false → s ≢ r
not_from s r h e = ground (arith, eq_iff s r)

unique : (o : Option Task) (P : Task → Type 0) (v : Task) → Holds P o → o ≡ some v → P v
unique o P v (w, e, h) k = subst P (some-injective w v (sym e ∙ k)) h

noted-IsEnding :
    (texts : Texts) (local : Bool) (task t : Task)
    → IsEnding t
    → IsEnding
        (construct_updates_on_task task.status (trimmed (update_to "" texts local)) (λ v. v) t)
unfolding update_to trimmed with_status
noted-IsEnding texts local task t h =
    let same = construct-status task.status (trimmed (update_to "" texts local)) (λ v. v) t in
    elim h [ inl e ↦ inl (same ∙ e) | inr e ↦ inr (same ∙ e) ]

-- An update to a status to which every task may go.
pub update_to-status :
    (s : String) (texts : Texts) (local : Bool) (task t : Task)
    → (s == "") ≡ false
    → valid_for_cancel_requested s ≡ true
    → (construct_updates_on_task task.status (trimmed (update_to s texts local)) (λ v. v) t).status
      ≡ s
unfolding update_to trimmed with_status task_status_transition_valid
update_to-status s texts local task t named valid =
    construct-status task.status (trimmed (update_to s texts local)) (λ v. v) t
    ∙ rw (named, valid) refl

-- The two updates of a cancelled task.
queue_task_cancel-IsEnding :
    (texts : Texts) (a b : Answers) (task t : Task)
    → IsEnding t
    → Holds IsEnding (queue_task_cancel texts a b task (some t)).1.stored
unfolding queue_task_cancel valid_for_cancel_requested
queue_task_cancel-IsEnding texts a b task t h =
    let local : Bool = is_manager_local_task task in
    let noted : Queued = queue_task_update task (update_to "" texts local) a (some t) in
    queue_task_update-Holds IsEnding task (update_to "canceled" no_texts false) b noted.stored
      (queue_task_update-Holds IsEnding task (update_to "" texts local) a (some t) (t, refl, h)
        (noted-IsEnding texts local task))
      (λ v k. inr (update_to-status "canceled" no_texts false task v refl refl))

cancelled-IsEnding :
    (texts : Texts) (marked : Bool) (a b : Answers) (t : Task)
    → t.status ≡ "cancel-requested"
    → Holds IsEnding (cancel_task texts marked a b (some t))
unfolding cancel_task
cancelled-IsEnding texts marked a b t h =
    let n : (t.status == "active") ≡ false = rw h refl in
    rw n (queue_task_cancel-IsEnding texts a b (cancel_projection t) t (inl h))

return_task-idle :
    (id : ℕ) (texts : Texts) (a : Answers) (t : Task)
    → (t.status == "active") ≡ false
    → Holds (λ v. v.status ≡ t.status) (return_task id texts a t (some t)).stored
unfolding return_task nothing_done
return_task-idle id texts a t n = elim (Bool-cases (of_other_worker id t.worker_id)) [
  | inl y ↦ rw y (t, refl, refl)
  | inr m ↦ rw (m, n) (t, refl, refl)
]

-- What a reply has queued.
abbrev queued_of : Reply → Option Queued
queued_of (stored_with q others) = some q
queued_of _ = none

from_worker-kept :
    (f : Failing) (id : ℕ) (u : Update) (ping : Bool) (a : Answers) (t : Task) (q : Queued)
    (others : List Queued)
    → queue_task_update_from_worker f id u ping a (some t) ≡ stored_with q others
    → t.status ≢ "active"
    → Holds (λ v. v.status ≡ t.status) q.stored
unfolding queue_task_update_from_worker
from_worker-kept f id u ping a t q others r idle =
    elim (Bool-cases (of_other_worker id t.worker_id)) [
      | inl y ↦ absurd (none-ne-some q (ap queued_of (rw y at r)))
      | inr n ↦
          let (p, e, h) = queue_task_update_from_worker-kept f id u ping a t n idle in
          subst (λ x. Holds (λ v. v.status ≡ t.status) x.stored)
            (some-injective p q (ap queued_of (sym e ∙ r))) h
    ]

-- A task that the server wants cancelled stays so or is cancelled, whatever a worker sends as an update of it,
-- when a worker returns it and when the server asks again to cancel it, whatever fails in these
-- handlers, as long as the task does not change between the reading and the update of a handler.
pub Change-cancel_requested : (t v : Task) → Change t v → t.status ≡ "cancel-requested" → IsEnding v
Change-cancel_requested t v (from_worker f id u ping a q others r e) h =
    let idle : t.status ≢ "active" = λ s. not_from "cancel-requested" "active" refl (sym h ∙ s) in
    let kept = from_worker-kept f id u ping a t q others r idle in
    inl (unique q.stored (λ x. x.status ≡ t.status) v kept e ∙ h)
Change-cancel_requested t v (returned id texts a e) h =
    inl (unique _ (λ x. x.status ≡ t.status) v (return_task-idle id texts a t (rw h refl)) e ∙ h)
Change-cancel_requested t v (cancelled texts marked a b e) h =
    unique _ IsEnding v (cancelled-IsEnding texts marked a b t h) e
