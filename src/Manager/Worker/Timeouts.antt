-- ===== src/Manager/Worker/Timeouts.antt =====
-- What becomes of a request when a worker times out.
use flamenco_manager.Common.{true, none, if◌then◌else◌, ◌==◌, ◌≡◌, refl, sym, ◌↔◌, arith}
use flamenco_manager.Manager.Worker.{
  Worker, found, update, changed, ack_timeout, set_timeout_status, settled, timed_out,
}
use flamenco_manager.Manager.Worker.Handlers.{check_worker, timeout_on_task, projected}

-- When the update succeeds, a worker that times out on its task keeps the status that is requested of it, or
-- else is requested to return to its own. One that is found by the check of all workers
-- is requested to return to its own status, whatever was requested of it before.
pub timeouts-requested :
    (w : Worker)
    → ((timeout_on_task true w).stored.status_requested
        ≡ (if w.status_requested == "" then w.status else w.status_requested))
      × ((check_worker true w).stored.status_requested ≡ w.status)
unfolding timeout_on_task check_worker set_timeout_status projected found changed timed_out
timeouts-requested w = (ground arith, refl)

-- An acknowledged timeout whose update succeeds makes the worker offline in memory and in the database, and
-- the two then agree on the request exactly when nothing was requested in the database, since
-- there the request stays.
pub ack_timeout-agrees_iff :
    (w : Worker)
    → w.status ≡ "timeout"
    → let (c, e) = ack_timeout true (found w) in
      (e ≡ none)
      × (c.memory.status ≡ "offline")
      × (c.stored.status ≡ "offline")
      × ((c.memory.status_requested ≡ c.stored.status_requested) ↔ (w.status_requested ≡ ""))
unfolding ack_timeout update changed found settled
ack_timeout-agrees_iff w h = rw h (refl, refl, refl, ((λ p. sym p), (λ p. sym p)))
