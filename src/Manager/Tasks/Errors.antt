-- ===== src/Manager/Tasks/Errors.antt =====
-- What the queue of task updates does, in order, and what is left when a part of it fails.
use mathlib.Core.List.{append-nil}
use mathlib.Core.Option.{none-ne-some}
use flamenco_manager.Common.{
  Bool, true, false, Option, none, some, List, [], ◌∷◌, ◌++◌, if◌then◌else◌, ◌≡◌, ◌≢◌, refl, inl,
  inr, Bool-cases,
}
use flamenco_manager.Manager.Tasks.{
  Task, Update, Answers, Queued, QueueError, insert_failed, Event, enqueue, store, rotation_events,
  log_events, update_task, write_and_update, trimmed, queue_task_update_with_extra,
  construct_updates_on_task,
}

abbrev pub all_well : Answers
all_well = record { inserted = true; written = true; updated = true }

-- What is sent to the server.
unfoldable pub sent : Update → List Event
unfolding trimmed
sent u = if u.is_manager_local then [] else enqueue (trimmed u) ∷ []

written :
    (task : Task) (u : Update) (logged : List Event) (extra : Task → Task) (before : List Event)
    (t : Task)
    → let new = construct_updates_on_task task.status u extra t in
      write_and_update task u logged extra all_well before (some t) ≡ record {
        events = (before ++ logged) ++ store new ∷ rotation_events task u.task_status;
        stored = some new;
        error = none;
      }
unfolding write_and_update update_task
written task u [] extra before t = rw (append-nil before) refl
written task u (e ∷ es) extra before t = refl

-- When nothing fails: all that is done, in order, and what is stored.
pub queue_task_update_with_extra-events :
    (task : Task) (u : Update) (extra : Task → Task) (t : Task)
    → let new = construct_updates_on_task task.status (trimmed u) extra t in
      queue_task_update_with_extra task u extra all_well (some t) ≡ record {
        events =
            (sent u ++ log_events task u.log) ++ store new ∷ rotation_events task u.task_status;
        stored = some new;
        error = none;
      }
unfolding queue_task_update_with_extra sent
queue_task_update_with_extra-events task u extra t = sending u.is_manager_local
  where
    new : Task
    new = construct_updates_on_task task.status (trimmed u) extra t

    queued : List Event → Queued
    queued before =
        write_and_update task (trimmed u) (log_events task u.log) extra all_well before (some t)

    sending :
        (local : Bool)
        → (if local then queued [] else queued (enqueue (trimmed u) ∷ [])) ≡ record {
          events =
              ((if local then [] else enqueue (trimmed u) ∷ []) ++ log_events task u.log)
              ++ store new ∷ rotation_events task u.task_status;
          stored = some new;
          error = none;
        }
    sending true = written task (trimmed u) (log_events task u.log) extra [] t
    sending false =
        written task (trimmed u) (log_events task u.log) extra (enqueue (trimmed u) ∷ []) t

-- An error, other than of the queue, with the task as it was.
abbrev LeavesTask : Option Task → Queued → Type 0
LeavesTask stored q =
    (e : QueueError) → q.error ≡ some e → (e ≢ insert_failed) × (q.stored ≡ stored)

update_task-LeavesTask :
    (task : Task) (u : Update) (extra : Task → Task) (updated : Bool) (before : List Event)
    (stored : Option Task)
    → LeavesTask stored (update_task task u extra updated before stored)
unfolding update_task
update_task-LeavesTask task u extra updated before none e h = absurd (none-ne-some e h)
update_task-LeavesTask task u extra true before (some t) e h = absurd (none-ne-some e h)
update_task-LeavesTask task u extra false before (some t) e h = (λ k. cc, refl)

write_and_update-LeavesTask :
    (task : Task) (u : Update) (logged : List Event) (extra : Task → Task) (a : Answers)
    (before : List Event) (stored : Option Task)
    → LeavesTask stored (write_and_update task u logged extra a before stored)
unfolding write_and_update
write_and_update-LeavesTask task u [] extra a before stored =
    update_task-LeavesTask task u extra a.updated before stored
write_and_update-LeavesTask task u (l ∷ ls) extra a before stored = elim (Bool-cases a.written) [
  | inl y ↦ rw y (update_task-LeavesTask task u extra a.updated (before ++ l ∷ ls) stored)
  | inr n ↦ rw n (λ e h. (λ k. cc, refl))
]

-- What is true of a result that ends with an error.
abbrev EndsClean : Option Task → Queued → Type 0
EndsClean stored q =
    (e : QueueError) → q.error ≡ some e → (q.stored ≡ stored) × (e ≡ insert_failed → q.events ≡ [])

LeavesTask-EndsClean :
    (stored : Option Task) (q : Queued) → LeavesTask stored q → EndsClean stored q
LeavesTask-EndsClean stored q h e k = let (f, g) = h e k in (g, λ i. absurd (f i))

if-EndsClean :
    (stored : Option Task) (b : Bool) (p q : Queued)
    → EndsClean stored p
    → EndsClean stored q
    → EndsClean stored (if b then p else q)
if-EndsClean stored true p q h k = h
if-EndsClean stored false p q h k = k

-- When queueing an update ends with an error, the task in the database is as it was; and when the error is that
-- the update cannot be queued, nothing at all was done.
pub queue_task_update_with_extra-error :
    (task : Task) (u : Update) (extra : Task → Task) (a : Answers) (stored : Option Task)
    (e : QueueError)
    → let q = queue_task_update_with_extra task u extra a stored in
      q.error ≡ some e → (q.stored ≡ stored) × (e ≡ insert_failed → q.events ≡ [])
unfolding queue_task_update_with_extra
queue_task_update_with_extra-error task u extra a stored =
    if-EndsClean stored u.is_manager_local _ _ (after []) (
      if-EndsClean stored a.inserted _ _ (after (enqueue (trimmed u) ∷ []))
        (λ e h. (refl, λ i. refl)))
  where
    after :
        (before : List Event)
        → EndsClean stored
            (write_and_update task (trimmed u) (log_events task u.log) extra a before stored)
    after before =
        LeavesTask-EndsClean stored _ (
          write_and_update-LeavesTask task (trimmed u) (log_events task u.log) extra a before
            stored)
