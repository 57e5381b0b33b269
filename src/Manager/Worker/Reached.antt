-- ===== src/Manager/Worker/Reached.antt =====
-- flamenco/workers.go: the documents that the handlers make of a worker's, whether their updates succeed or
-- not.
use flamenco_manager.Common.{String, Bool, some, ℕ, ◌≡◌, ◌≢◌, false, Bool-cases, inl, inr, refl}
use flamenco_manager.Dashboard.Requests.{Payload}
use flamenco_manager.Manager.Sleep.{Schedule}
use flamenco_manager.Manager.Worker.{Worker, Copies, found, ack_status_change}
use flamenco_manager.Manager.Worker.Handlers.{
  worker_sign_off, worker_sign_on, worker_ack_status_change, schedule_task, check_worker,
  timeout_on_task, set_sleep_schedule, stays_asleep, idle, projected,
}
use flamenco_manager.Manager.Worker.TestTask.{Tests}
use flamenco_manager.Manager.Worker.Asking.{worker_action}
use flamenco_manager.Manager.Worker.Standing.{
  Stands, named, changed-Stands, set_status-BothStand, set_awake-BothStand,
  ack_status_change-BothStand, request_status_change-BothStand, set_timeout_status-Stands,
  found-BothStand, worker_action-BothStand, set_sleep_schedule-BothStand, BothStand,
}

-- A handler runs to its end between reading the document and the next handler.
pub data Step (w : Worker) : Worker → Type 0 where
  signs_off :
      (returned acked asked : Bool) → Step w (worker_sign_off returned acked asked w).0.stored
  signs_on : (started seen : Bool) → Step w (worker_sign_on started seen w).0.stored
  acks : (status : String) (ok : Bool) → Step w (worker_ack_status_change status ok w).0.stored
  asks_task : (ok : Bool) → Step w (schedule_task ok w).0.stored
  is_checked : (ok : Bool) → w.status ≡ "awake" → Step w (check_worker ok w).stored
  times_out : (ok : Bool) → Step w (timeout_on_task ok w).stored
  acts : (p : Payload) (tests : Tests) (ok : Bool) → Step w (worker_action p tests ok w).0.stored
  scheduled :
      (s : Schedule) (now : ℕ) (stored_ok asked : Bool) (c : Copies)
      → set_sleep_schedule s now stored_ok asked (found w) ≡ some c
      → Step w c.stored

pub data Reach (w : Worker) : Worker → Type 0 where
  here : Reach w w
  next : {u v : Worker} → Reach w u → Step u v → Reach w v

sign_off-BothStand :
    (returned acked asked : Bool) (w : Worker)
    → Stands w
    → BothStand (worker_sign_off returned acked asked w).0
unfolding worker_sign_off
sign_off-BothStand returned acked asked w h =
    let copies = (ack_status_change "offline" acked (found w)).0 in
    let off = ack_status_change-BothStand "offline" acked (found w) (found-BothStand w h) in
    elim (Bool-cases (stays_asleep w)) [
      | inl y ↦ rw y (request_status_change-BothStand "asleep" false asked copies off)
      | inr n ↦ rw n off
    ]

sign_on-BothStand :
    (started seen : Bool) (w : Worker) → Stands w → BothStand (worker_sign_on started seen w).0
unfolding worker_sign_on idle
sign_on-BothStand started seen w h =
    let c : Copies = record { memory = idle w; stored = w } in
    let on = set_status-BothStand "starting" started c (named "starting" refl) (h, h) in
    (on.0, changed-Stands seen _ _ on.1 on.1)

Step-Stands : (w v : Worker) → Step w v → Stands w → Stands v
unfolding worker_ack_status_change schedule_task check_worker timeout_on_task
Step-Stands w v (signs_off returned acked asked) h = (sign_off-BothStand returned acked asked w h).1
Step-Stands w v (signs_on started seen) h = (sign_on-BothStand started seen w h).1
Step-Stands w v (acks status ok) h =
    (ack_status_change-BothStand status ok (found w) (found-BothStand w h)).1
Step-Stands w v (asks_task ok) h = (set_awake-BothStand ok (found w) (found-BothStand w h)).1
Step-Stands w v (is_checked ok awake) h =
    set_timeout_status-Stands ok (record { memory = projected w; stored = w }) h
Step-Stands w v (times_out ok) h = set_timeout_status-Stands ok (found w) (found-BothStand w h).1
Step-Stands w v (acts p tests ok) h = (worker_action-BothStand p tests ok w (found-BothStand w h)).1
Step-Stands w v (scheduled s now stored_ok asked c e) h =
    (set_sleep_schedule-BothStand s now stored_ok asked (found w) c (found-BothStand w h) e).1

-- Whatever handlers run, one after the other, for a worker whose status is not "shutdown", and whichever of their
-- updates fail, its status in the database is never "shutdown": that is only ever requested.
pub Reach-shutdown : (w v : Worker) → Reach w v → w.status ≢ "shutdown" → v.status ≢ "shutdown"
Reach-shutdown w v here h = h
Reach-shutdown w v (next {u} r s) h = Step-Stands u v s (Reach-shutdown w u r h)
