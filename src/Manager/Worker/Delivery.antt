-- ===== src/Manager/Worker/Delivery.antt =====
-- What becomes of a request when the worker hears of it, and when it signs off and on.
use flamenco_manager.Common.{
  ◌⊎◌, ◌↔◌, ◌∙◌, String, Bool, true, false, none, if◌then◌else◌, ◌==◌, ◌≡◌, ◌≢◌, refl, inl, inr,
  eq_iff, arith, Bool-cases, sym,
}
use mathlib.Core.Bool.{false≢true}
use flamenco_manager.Manager.Worker.{
  Worker, found, update, changed, settled, request_status_change, requestable, set_status,
  ack_status_change, requesting,
}
use flamenco_manager.Manager.Worker.Handlers.{
  worker_sign_off, worker_sign_on, no_content, stays_asleep, idle,
}

-- A request that can be made is in memory and in the database.
pub request_made :
    (status : String) (lazy : Bool) (w : Worker)
    → requestable status ≡ true
    → request_status_change status lazy true (found w) ≡ (found (requesting status lazy w), none)
unfolding request_status_change update changed found
request_made status lazy w h = rw h refl

pub ack_made :
    (status : String) (w : Worker)
    → (status == "shutdown") ≡ false
    → ack_status_change status true (found w) ≡ (found (settled status w), none)
unfolding ack_status_change update changed found
ack_made status w h = rw h refl

-- Asleep, with nothing else requested than to shut down.
abbrev pub IsResting : Worker → Type 0
IsResting w =
    (w.status ≡ "asleep") × ((w.status_requested ≡ "") ⊎ (w.status_requested ≡ "shutdown"))

stays_asleep_iff : (w : Worker) → (stays_asleep w ≡ true) ↔ IsResting w
unfolding stays_asleep
stays_asleep_iff w = ground (
  arith,
  eq_iff w.status "asleep",
  eq_iff w.status_requested "",
  eq_iff w.status_requested "shutdown",
)

empty-ne : ◌≢◌ {A = String} "" "asleep"
empty-ne e = ground (arith, eq_iff "" "asleep", e)

asked-IsResting :
    (w : Worker) (s : String)
    → s ≡ (if stays_asleep w then "asleep" else "")
    → ((s ≡ "asleep") ↔ IsResting w) × ((s ≡ "asleep") ⊎ (s ≡ ""))
asked-IsResting w s h = elim (Bool-cases (stays_asleep w)) [
  | inl y ↦ let e = rw y at h in ((λ k. (stays_asleep_iff w).0 y, λ r. e), inl e)
  | inr n ↦
      let e = rw n at h in
      (
        (
          λ k. absurd (empty-ne (sym e ∙ k)),
          λ r. absurd (false≢true (sym n ∙ (stays_asleep_iff w).1 r)),
        ),
        inr e,
      )
]

-- When all updates succeed, a worker that signs off and then signs on is starting without a task. If it was
-- asleep, and nothing or to shut down was requested of it, sleeping is requested of it at once; and of
-- every other worker nothing is requested any more.
pub worker_sign_on-asleep :
    (w : Worker)
    → let off = worker_sign_off true true true w in
      let on = worker_sign_on true true off.0.stored in
      (off.1 ≡ no_content)
      × (on.1 ≡ no_content)
      × (on.0.stored.status ≡ "starting")
      × (on.0.stored.current_task ≡ none)
      × ((on.0.stored.status_requested ≡ "asleep") ↔ IsResting w)
      × ((on.0.stored.status_requested ≡ "asleep") ⊎ (on.0.stored.status_requested ≡ ""))
unfolding worker_sign_off worker_sign_on ack_status_change request_status_change update changed
    found requesting settled idle set_status requestable
worker_sign_on-asleep w = elim (Bool-cases (stays_asleep w)) [
  | inl y ↦
      let (resting, either) = asked-IsResting w "asleep" (rw y refl) in
      rw y (refl, refl, refl, refl, resting, either)
  | inr n ↦
      let (resting, either) = asked-IsResting w "" (rw n refl) in
      rw n (refl, refl, refl, refl, resting, either)
]
