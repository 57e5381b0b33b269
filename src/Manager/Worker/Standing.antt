-- ===== src/Manager/Worker/Standing.antt =====
-- No operation on a worker gives it the status of shutting down.
use mathlib.Core.Option.{some-injective, none-ne-some}
use flamenco_manager.Common.{
  String, Bool, some, ℕ, ◌≡◌, ◌≢◌, ◌==◌, ◌||◌, true, false, if◌then◌else◌, eq_iff, arith,
  Bool-cases, inl, inr, none, refl, Option-cases, subst,
}
use flamenco_manager.Dashboard.Requests.{Payload}
use flamenco_manager.Manager.Sleep.{Schedule, scheduled_worker_status}
use flamenco_manager.Manager.Worker.{
  Worker, Copies, found, changed, update, Outcome, set_status, set_awake, request_status_change,
  ack_status_change, ack_timeout, set_timeout_status, settled, requesting, timed_out, requestable,
}
use flamenco_manager.Manager.Worker.Handlers.{
  set_sleep_schedule, request_worker_status, store_schedule, with_schedule, prepared,
}
use flamenco_manager.Manager.Worker.TestTask.{Tests}
use flamenco_manager.Manager.Worker.Asking.{
  worker_action, Action, set_status_action, shutdown_action, ack_timeout_action,
  send_test_job_action, forget_worker_action, forget_blacklist_line_action, handle, action_handler,
  answer_of, form_value, form_lazy,
}

-- A worker whose status is not one of shutting down.
abbrev pub Stands : Worker → Type 0
Stands w = w.status ≢ "shutdown"

abbrev pub BothStand : Copies → Type 0
BothStand c = Stands c.memory × Stands c.stored

pub named : (s : String) → (s == "shutdown") ≡ false → s ≢ "shutdown"
named s h e = ground (arith, eq_iff s "shutdown")

pub changed-Stands :
    (ok : Bool) (new old : Worker) → Stands new → Stands old → Stands (changed ok new old)
unfolding changed
changed-Stands true new old p q = p
changed-Stands false new old p q = q

update-BothStand :
    (ok : Bool) (m new old : Worker)
    → Stands m
    → Stands new
    → Stands old
    → BothStand (update ok m (changed ok new old)).0
unfolding update changed
update-BothStand true m new old p q r = (p, q)
update-BothStand false m new old p q r = (p, r)

if-BothStand :
    (b : Bool) (o p : Outcome)
    → BothStand o.0
    → (b ≡ false → BothStand p.0)
    → BothStand (if b then o else p).0
if-BothStand true o p h k = h
if-BothStand false o p h k = k refl

pub set_status-BothStand :
    (status : String) (ok : Bool) (c : Copies)
    → status ≢ "shutdown"
    → BothStand c
    → BothStand (set_status status ok c).0
unfolding set_status
set_status-BothStand status ok c n h = update-BothStand ok _ _ _ n n h.1

pub set_awake-BothStand : (ok : Bool) (c : Copies) → BothStand c → BothStand (set_awake ok c).0
unfolding set_awake
set_awake-BothStand ok c h =
    if-BothStand (c.memory.status == "awake" || c.memory.status == "testing") (c, none) _ h
      (λ n. set_status-BothStand "awake" ok c (named "awake" refl) h)

pub request_status_change-BothStand :
    (status : String) (lazy ok : Bool) (c : Copies)
    → BothStand c
    → BothStand (request_status_change status lazy ok c).0
unfolding request_status_change requesting
request_status_change-BothStand status lazy ok c h = elim (Bool-cases (requestable status)) [
  | inl y ↦ rw y (update-BothStand ok _ _ _ h.0 h.1 h.1)
  | inr n ↦ rw n h
]

pub ack_status_change-BothStand :
    (status : String) (ok : Bool) (c : Copies)
    → BothStand c
    → BothStand (ack_status_change status ok c).0
unfolding ack_status_change settled
ack_status_change-BothStand status ok c h =
    if-BothStand (status == "shutdown") (c, none) _ h
      (λ n. update-BothStand ok _ _ _ (named status n) (named status n) h.1)

ack_timeout-BothStand : (ok : Bool) (c : Copies) → BothStand c → BothStand (ack_timeout ok c).0
unfolding ack_timeout settled
ack_timeout-BothStand ok c h = elim (Bool-cases (c.memory.status == "timeout")) [
  | inl y ↦ rw y (update-BothStand ok _ _ _ (named "offline" refl) (named "offline" refl) h.1)
  | inr n ↦ rw n h
]

pub set_timeout_status-Stands :
    (ok : Bool) (c : Copies) → Stands c.stored → Stands (set_timeout_status ok c).stored
unfolding set_timeout_status timed_out
set_timeout_status-Stands ok c h = elim (Bool-cases (c.memory.status_requested == "")) [
  | inl y ↦ rw y (changed-Stands ok _ _ (named "timeout" refl) h)
  | inr n ↦ rw n (changed-Stands ok _ _ (named "timeout" refl) h)
]

pub found-BothStand : (w : Worker) → Stands w → BothStand (found w)
unfolding found
found-BothStand w h = (h, h)

handle-BothStand :
    (a : Action) (p : Payload) (tests : Tests) (ok : Bool) (w : Worker)
    → BothStand (found w)
    → BothStand (handle a p tests ok w).0
unfolding handle answer_of
handle-BothStand set_status_action p tests ok w h =
    request_status_change-BothStand (form_value p.status) (form_lazy p.lazy) ok (found w) h
handle-BothStand shutdown_action p tests ok w h =
    request_status_change-BothStand "shutdown" (form_lazy p.lazy) ok (found w) h
handle-BothStand ack_timeout_action p tests ok w h = ack_timeout-BothStand ok (found w) h
handle-BothStand send_test_job_action p tests ok w h = h
handle-BothStand forget_worker_action p tests ok w h = h
handle-BothStand forget_blacklist_line_action p tests ok w h = h

pub worker_action-BothStand :
    (p : Payload) (tests : Tests) (ok : Bool) (w : Worker)
    → BothStand (found w)
    → BothStand (worker_action p tests ok w).0
unfolding worker_action
worker_action-BothStand p tests ok w h = elim (Option-cases (action_handler p.action)) [
  | inl n ↦ rw (worker_action, n) h
  | inr (a, e) ↦ rw (worker_action, e) (handle-BothStand a p tests ok w h)
]

request_worker_status-BothStand :
    (now : ℕ) (ok : Bool) (c : Copies) → BothStand c → BothStand (request_worker_status now ok c)
unfolding request_worker_status
request_worker_status-BothStand now ok c h =
    let scheduled = scheduled_worker_status c.memory.sleep_schedule c.memory.status now in
    elim (Bool-cases (scheduled == "" || c.memory.status_requested == scheduled)) [
      | inl y ↦ rw y h
      | inr n ↦ rw n (request_status_change-BothStand scheduled false ok c h)
    ]

store_schedule-BothStand :
    (s : Schedule) (now : ℕ) (stored_ok asked : Bool) (c : Copies)
    → BothStand c
    → BothStand (store_schedule s now stored_ok asked c)
unfolding store_schedule with_schedule
store_schedule-BothStand s now false asked c h = h
store_schedule-BothStand s now true asked c h =
    request_worker_status-BothStand now asked
      (record { memory = with_schedule s c.memory; stored = with_schedule s c.stored }) h

pub set_sleep_schedule-BothStand :
    (s : Schedule) (now : ℕ) (stored_ok asked : Bool) (c d : Copies)
    → BothStand c
    → set_sleep_schedule s now stored_ok asked c ≡ some d
    → BothStand d
unfolding set_sleep_schedule
set_sleep_schedule-BothStand s now stored_ok asked c d h e = elim (Option-cases (prepared s now)) [
  | inl n ↦ absurd (none-ne-some d (rw n at e))
  | inr (p, q) ↦
      subst BothStand (some-injective _ d (rw q at e))
        (store_schedule-BothStand p now stored_ok asked c h)
]
