-- ===== src/Manager/Worker/Scheduled.antt =====
-- What a sleep schedule requests of a worker, and what it asks for once the worker has done so.
use flamenco_manager.Manager.Sleep.NextCheck.{time_based_status-stable}
use mathlib.Core.Option.{some-injective, none-ne-some}
use flamenco_manager.Common.{
  String, true, false, if◌then◌else◌, ◌==◌, ℕ, ◌≡◌, refl, sym, ap, ◌∙◌, inl, inr, ◌⊎◌, eq_iff,
  arith, subst, Option-cases, ◌≤◌, ◌<◌, some, none, List, ◌≢◌,
}
use flamenco_manager.Manager.TimeOfDay.{TimeOfDay}
use flamenco_manager.Manager.Sleep.{
  Schedule, scheduled_worker_status, time_based_status, cleanup_days_of_week, calculate_next_check,
}
use flamenco_manager.Manager.Worker.{Worker, found, Copies, settled}
use flamenco_manager.Manager.Worker.Handlers.{
  store_schedule, with_schedule, prepared, checked_at, set_sleep_schedule, worker_ack_status_change,
}
use flamenco_manager.Manager.Worker.Delivery.{ack_made}
use flamenco_manager.Manager.Worker.Wishes.{
  scheduled-IsWish, IsWish-acked, asked_of, request_worker_status-found, asked_of-requested,
  asked_of-status, asked_of-sleep_schedule, wanted, asked_of-wanted, scheduled-time_based,
  scheduled-reached,
}

store_schedule-found :
    (p : Schedule) (now : ℕ) (w : Worker)
    → store_schedule p now true true (found w)
      ≡ found (asked_of (wanted (with_schedule p w) now) (with_schedule p w))
unfolding store_schedule with_schedule found
store_schedule-found p now w = request_worker_status-found now (with_schedule p w)

prepared_day :
    (s p : Schedule) (now : ℕ)
    → prepared s now ≡ some p
    → (days : List ℕ) × (p ≡ checked_at now (record s { days_of_week = days }))
unfolding prepared
prepared_day s p now h = elim (Option-cases (cleanup_days_of_week s.days_of_week)) [
  | inl n ↦ absurd (none-ne-some p (rw n at h))
  | inr (days, e) ↦ (days, sym (some-injective _ p (rw e at h)))
]

-- A worker to which a schedule was given, when the updates succeed.
set_schedule_document :
    (s : Schedule) (now : ℕ) (w : Worker) (c : Copies)
    → set_sleep_schedule s now true true (found w) ≡ some c
    → (days : List ℕ) × (let p = checked_at now (record s { days_of_week = days }) in
        c ≡ found (asked_of (wanted (with_schedule p w) now) (with_schedule p w)))
unfolding set_sleep_schedule
set_schedule_document s now w c h = elim (Option-cases (prepared s now)) [
  | inl n ↦ absurd (none-ne-some c (rw n at h))
  | inr (p, e) ↦
      let (days, q) = prepared_day s p now e in
      let stored = some-injective (store_schedule p now true true (found w)) c (rw e at h) in
      (
        days,
        subst (λ x. c ≡ found (asked_of (wanted (with_schedule x w) now) (with_schedule x w))) q
            (sym stored ∙ store_schedule-found p now w),
      )
]

-- When a sleep schedule is set and the updates succeed, the copies of the worker agree, its status is as it was,
-- its next check is calculated from the time, and it is requested to be in the status that its
-- schedule wants of it then, or what was requested before if that is none.
pub set_sleep_schedule-requests :
    (s : Schedule) (now : ℕ) (w : Worker) (c : Copies)
    → set_sleep_schedule s now true true (found w) ≡ some c
    → (c.memory ≡ c.stored)
      × (c.stored.status ≡ w.status)
      × (c.stored.sleep_schedule.next_check ≡ some (calculate_next_check s now))
      × (c.stored.status_requested
          ≡ (if wanted c.stored now == "" then w.status_requested else wanted c.stored now))
unfolding found with_schedule checked_at calculate_next_check
set_sleep_schedule-requests s now w c h =
    let (days, e) = set_schedule_document s now w c h in
    let v : Worker = with_schedule (checked_at now (record s { days_of_week = days })) w in
    let a : Worker = asked_of (wanted v now) v in
    subst
      (λ d.
        (d.memory ≡ d.stored)
        × (d.stored.status ≡ w.status)
        × (d.stored.sleep_schedule.next_check ≡ some (calculate_next_check s now))
        × (d.stored.status_requested
            ≡ (if wanted d.stored now == "" then w.status_requested else wanted d.stored now)))
      (sym e)
      (
        refl,
        asked_of-status (wanted v now) v,
        ap (λ q. q.next_check) (asked_of-sleep_schedule (wanted v now) v),
        rw (asked_of-wanted (wanted v now) v now) (asked_of-requested (wanted v now) v),
      )

wanted-acked :
    (x : String) (a : Worker) (t : ℕ)
    → (x == "shutdown") ≡ false
    → scheduled_worker_status a.sleep_schedule x t ≡ ""
    → wanted (worker_ack_status_change x true a).0.stored t ≡ ""
unfolding worker_ack_status_change settled found
wanted-acked x a t n h = subst (λ o. wanted o.0.stored t ≡ "") (sym (ack_made x a n)) h

acked_wanted :
    (p : Schedule) (now t : ℕ) (w : Worker) (c : Copies)
    → c ≡ found (asked_of (wanted (with_schedule p w) now) (with_schedule p w))
    → wanted c.stored now ≢ ""
    → time_based_status p t ≡ time_based_status p now
    → wanted (worker_ack_status_change c.stored.status_requested true c.stored).0.stored t ≡ ""
unfolding found with_schedule
acked_wanted p now t w c e k same =
    let v : Worker = with_schedule p w in
    let x : String = wanted v now in
    let a : Worker = asked_of x v in
    let unmet : x ≢ "" = λ q. k (rw e (asked_of-wanted x v now ∙ q)) in
    let named : (x == "") ≡ false = ground (arith, eq_iff x "") in
    let request : a.status_requested ≡ x =
      asked_of-requested x v ∙ ap (λ b. if b then v.status_requested else x) named in
    let reached = same ∙ sym (scheduled-time_based p w.status now unmet) in
    let nothing =
      subst (λ s. scheduled_worker_status s x t ≡ "") (sym (asked_of-sleep_schedule x v))
        (scheduled-reached p x t reached) in
    subst
      (λ d.
        wanted (worker_ack_status_change d.stored.status_requested true d.stored).0.stored t ≡ "")
      (sym e)
      (subst (λ r. wanted (worker_ack_status_change r true a).0.stored t ≡ "") (sym request)
        (wanted-acked x a t (IsWish-acked x (scheduled-IsWish p w.status now)) nothing))

-- Let a schedule with both a start and an end, with minutes below 60, or with neither be set when it wants
-- another status of the worker, and the updates succeed. Once the worker has acknowledged what is
-- requested of it, the schedule wants nothing of it until the next check.
pub set_sleep_schedule-settles :
    (s : Schedule) (now t : ℕ) (w : Worker) (c : Copies)
    → set_sleep_schedule s now true true (found w) ≡ some c
    → wanted c.stored now ≢ ""
    → ((s.time_start ≡ none) × (s.time_end ≡ none))
      ⊎ ((a b : TimeOfDay) × (s.time_start ≡ some a)
          × (s.time_end ≡ some b)
          × (a.minute < 60)
          × (b.minute < 60))
    → now ≤ t
    → t < calculate_next_check s now
    → wanted (worker_ack_status_change c.stored.status_requested true c.stored).0.stored t ≡ ""
unfolding found with_schedule checked_at calculate_next_check
set_sleep_schedule-settles s now t w c h k limits later early =
    let (days, e) = set_schedule_document s now w c h in
    let p : Schedule = checked_at now (record s { days_of_week = days }) in
    acked_wanted p now t w c e k (time_based_status-stable p now t limits later early)
