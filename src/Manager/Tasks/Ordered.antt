-- ===== src/Manager/Tasks/Ordered.antt =====
-- What the queue of task updates sends, writes, stores and rotates, and in which order.
use flamenco_manager.Common.{
  ℕ, ◌≤◌, String, Bool, true, false, List, [], ◌∷◌, ◌++◌, some, none, if◌then◌else◌, ◌==◌, ◌≡◌, ◌≢◌,
  ◌⊎◌, inl, inr, refl, ap, arith, eq_iff, Bool-cases,
}
use flamenco_manager.Manager.Tasks.{
  Task, Update, Event, enqueue, write_log, store, rotate_log, rotation_events, log_events, trimmed,
  ends_line, queue_task_update_with_extra, construct_updates_on_task,
}
use flamenco_manager.Manager.Tasks.LogTail.{trim_space, trim_log_for_task_update}
use flamenco_manager.Manager.Tasks.Tail.{line_ends, trim_log_for_task_update-tail}
use flamenco_manager.Manager.Tasks.Errors.{all_well, sent, queue_task_update_with_extra-events}

-- An update with at most ten lines of the log, which are the last ones, and nothing else of it.
abbrev pub IsTrimmed : Update → Update → Type 0
IsTrimmed u e =
    (e.task_status ≡ u.task_status)
    × (e.activity ≡ u.activity)
    × (e.failed_by_workers ≡ u.failed_by_workers)
    × (e.log ≡ [])
    × (line_ends e.log_tail ≤ 10)
    × (((u.log ≡ []) × (e.log_tail ≡ []))
        ⊎ ((before tail : List ℕ) × (trim_space u.log ≡ before ++ tail)
            × (e.log_tail ≡ tail ++ b'\n' ∷ [])))

-- What is sent to the server.
abbrev pub IsSent : Update → List Event → Type 0
IsSent u events =
    ((u.is_manager_local ≡ true) × (events ≡ []))
    ⊎ ((u.is_manager_local ≡ false) × ((e : Update) × (events ≡ enqueue e ∷ []) × IsTrimmed u e))

-- What is written to the file of the task.
abbrev pub IsLogged : Task → List ℕ → List Event → Type 0
IsLogged task log events =
    ((log ≡ []) × (events ≡ []))
    ⊎ ((task.job_known ≡ false) × (events ≡ []))
    ⊎ ((log ≢ [])
        × (task.job_known ≡ true)
        × ((text : List ℕ) × (events ≡ write_log text ∷ [])
            × (ends_line text ≡ true)
            × ((text ≡ log) ⊎ ((ends_line log ≡ false) × (text ≡ log ++ b'\n' ∷ [])))))

-- Whether the file is rotated.
abbrev pub IsRotated : Task → String → List Event → Type 0
IsRotated task status events =
    ((status ≡ "active") × (task.status ≢ "active") × (events ≡ rotate_log ∷ []))
    ⊎ (((status ≢ "active") ⊎ (task.status ≡ "active")) × (events ≡ []))

ends_line-append : (cs : List ℕ) → ends_line (cs ++ b'\n' ∷ []) ≡ true
unfolding ends_line
ends_line-append [] = refl
ends_line-append (c ∷ []) = refl
ends_line-append (c ∷ d ∷ cs) = ends_line-append (d ∷ cs)

tail-few : (log : List ℕ) → line_ends (trim_log_for_task_update log) ≤ 10
unfolding trim_log_for_task_update line_ends
tail-few [] = omega arith
tail-few (c ∷ cs) =
    let (before, tail, e, f, few, whole) = trim_log_for_task_update-tail (c ∷ cs) (λ e. cc) in few

tail-last :
    (log : List ℕ)
    → ((log ≡ []) × (trim_log_for_task_update log ≡ []))
      ⊎ ((before tail : List ℕ) × (trim_space log ≡ before ++ tail)
          × (trim_log_for_task_update log ≡ tail ++ b'\n' ∷ []))
unfolding trim_log_for_task_update
tail-last [] = inl (refl, refl)
tail-last (c ∷ cs) =
    let (before, tail, e, f, few, whole) = trim_log_for_task_update-tail (c ∷ cs) (λ e. cc) in
    inr (before, tail, e, f)

trimmed-IsTrimmed : (u : Update) → IsTrimmed u (trimmed u)
unfolding trimmed
trimmed-IsTrimmed u = (refl, refl, refl, refl, tail-few u.log, tail-last u.log)

sent-IsSent : (u : Update) → IsSent u (sent u)
unfolding sent
sent-IsSent u = elim (Bool-cases u.is_manager_local) [
  | inl y ↦ inl (y, rw y refl)
  | inr n ↦ inr (n, (trimmed u, rw n refl, trimmed-IsTrimmed u))
]

log_events-IsLogged : (task : Task) (log : List ℕ) → IsLogged task log (log_events task log)
unfolding log_events
log_events-IsLogged task [] = inl (refl, refl)
log_events-IsLogged task (c ∷ cs) = elim (Bool-cases task.job_known) [
  | inr n ↦ inr (inl (n, rw n refl))
  | inl y ↦ elim (Bool-cases (ends_line (c ∷ cs))) [
    | inl l ↦ inr (inr (λ e. cc, y, (c ∷ cs, rw (y, l) refl, l, inl refl)))
    | inr m ↦ inr (
        inr (
          λ e. cc,
          y,
          (c ∷ cs ++ b'\n' ∷ [], rw (y, m) refl, ends_line-append (c ∷ cs), inr (m, refl)),
        ))
  ]
]

no_events : (a b : Bool) → ◌≡◌ {A = List Event} (if a then [] else if b then [] else []) []
no_events true b = refl
no_events false true = refl
no_events false false = refl

rotation_events-IsRotated :
    (task : Task) (status : String) → IsRotated task status (rotation_events task status)
unfolding rotation_events
rotation_events-IsRotated task status = elim (Bool-cases (status == "active")) [
  | inr n ↦ inr (
    inl (ground (arith, n, eq_iff status "active")),
    rw n (no_events (status == "") (task.status == status)),
  )
  | inl y ↦
      let e : status ≡ "active" = (eq_iff status "active").0 y in
      elim (Bool-cases (task.status == "active")) [
        | inl s ↦ inr (inr ((eq_iff task.status "active").0 s), rw (e, s) refl)
        | inr m ↦ inl (e, ground (arith, m, eq_iff task.status "active"), rw (e, m) refl)
      ]
]

-- When nothing fails, an update of a task is first sent to the server, unless it is local to the manager, and
-- then without its log, of which it has at most ten lines, the last ones; then the whole log, which is made
-- to end its last line, is written to the file of the task, if there is a log and the job is known; then the
-- task is updated in the database; and only then is the file rotated, just when the update makes the
-- task active and the copy in memory is not active yet.
pub queue_task_update_with_extra-order :
    (task : Task) (u : Update) (extra : Task → Task) (t : Task)
    → let q = queue_task_update_with_extra task u extra all_well (some t) in
      let new = construct_updates_on_task task.status (trimmed u) extra t in
      (sending logging rotating : List Event) × (q.events
        ≡ (sending ++ logging) ++ store new ∷ rotating)
      × (q.stored ≡ some new)
      × (q.error ≡ none)
      × IsSent u sending
      × IsLogged task u.log logging
      × IsRotated task u.task_status rotating
queue_task_update_with_extra-order task u extra t =
    let all = queue_task_update_with_extra-events task u extra t in
    (
      sent u,
      log_events task u.log,
      rotation_events task u.task_status,
      ap (λ q. q.events) all,
      ap (λ q. q.stored) all,
      ap (λ q. q.error) all,
      sent-IsSent u,
      log_events-IsLogged task u.log,
      rotation_events-IsRotated task u.task_status,
    )
