-- ===== src/Manager/Worker/Wishes.antt =====
-- The statuses that a schedule may want of a worker, and the worker of which one is requested.
use mathlib.Core.Bool.{false≢true}
use flamenco_manager.Common.{
  String, Bool, true, false, not, ◌||◌, if◌then◌else◌, ◌==◌, ℕ, ◌≡◌, refl, sym, ap, ◌∙◌, inl, inr,
  ◌⊎◌, eq_iff, arith, Bool-cases, subst, ◌≢◌,
}
use flamenco_manager.Manager.TimeOfDay.{make_time_of_day}
use flamenco_manager.Manager.Sleep.{
  Schedule, scheduled_worker_status, time_based_status, before_start, after_end, is_sleep_day,
}
use flamenco_manager.Manager.Worker.{Worker, found, request_status_change, requestable, requesting}
use flamenco_manager.Manager.Worker.Handlers.{request_worker_status}
use flamenco_manager.Manager.Worker.Delivery.{request_made}

-- Nothing, or one of the two statuses that a schedule may ask for.
abbrev pub IsWish : String → Type 0
IsWish s = (s ≡ "") ⊎ (s ≡ "awake") ⊎ (s ≡ "asleep")

if-IsWish : (b : Bool) (x y : String) → IsWish x → IsWish y → IsWish (if b then x else y)
if-IsWish true x y p q = p
if-IsWish false x y p q = q

time_based_status-IsWish : (s : Schedule) (t : ℕ) → IsWish (time_based_status s t)
unfolding time_based_status
time_based_status-IsWish s t =
    let tod = make_time_of_day t in
    if-IsWish (not (is_sleep_day s t)) _ _ (inl refl)
      (if-IsWish (before_start s tod || after_end s tod) _ _ (inr (inl refl)) (inr (inr refl)))

pub scheduled-IsWish :
    (s : Schedule) (status : String) (t : ℕ) → IsWish (scheduled_worker_status s status t)
unfolding scheduled_worker_status
scheduled-IsWish s status t =
    if-IsWish (not s.schedule_active) _ _ (inl refl)
      (if-IsWish (time_based_status s t == status) _ _ (inl refl) (time_based_status-IsWish s t))

IsWish-requestable : (s : String) → IsWish s → (s == "") ≡ false → requestable s ≡ true
unfolding requestable
IsWish-requestable s (inl e) n =
    absurd (false≢true (sym n ∙ subst (λ r. (r == "") ≡ true) (sym e) refl))
IsWish-requestable s (inr (inl e)) n = rw e refl
IsWish-requestable s (inr (inr e)) n = rw e refl

pub IsWish-acked : (s : String) → IsWish s → (s == "shutdown") ≡ false
IsWish-acked s (inl e) = rw e refl
IsWish-acked s (inr (inl e)) = rw e refl
IsWish-acked s (inr (inr e)) = rw e refl

-- The worker after `RequestWorkerStatus`, when its update succeeds.
unfoldable pub asked_of : String → Worker → Worker
unfolding requesting
asked_of scheduled w =
    if scheduled == "" || w.status_requested == scheduled then w else requesting scheduled false w

pub request_worker_status-found :
    (now : ℕ) (w : Worker)
    → request_worker_status now true (found w)
      ≡ found (asked_of (scheduled_worker_status w.sleep_schedule w.status now) w)
unfolding request_worker_status asked_of found
request_worker_status-found now w =
    asked (scheduled_worker_status w.sleep_schedule w.status now)
      (scheduled-IsWish w.sleep_schedule w.status now)
  where
    asked :
        (s : String)
        → IsWish s
        → (if s == "" || w.status_requested == s
            then found w
            else (request_status_change s false true (found w)).0)
          ≡ found (asked_of s w)
    asked s h = elim (Bool-cases (s == "" || w.status_requested == s)) [
      | inl y ↦ rw y refl
      | inr n ↦
          rw n (ap (λ o. o.0) (request_made s false w (IsWish-requestable s h (ground (arith, n)))))
    ]

pub asked_of-requested :
    (s : String) (w : Worker)
    → (asked_of s w).status_requested ≡ (if s == "" then w.status_requested else s)
unfolding asked_of
asked_of-requested s w = ground (arith, eq_iff w.status_requested s)

pub asked_of-status : (s : String) (w : Worker) → (asked_of s w).status ≡ w.status
unfolding asked_of
asked_of-status s w = elim (Bool-cases (s == "" || w.status_requested == s)) [
  | inl y ↦ rw y refl
  | inr n ↦ rw n refl
]

pub asked_of-sleep_schedule :
    (s : String) (w : Worker) → (asked_of s w).sleep_schedule ≡ w.sleep_schedule
unfolding asked_of
asked_of-sleep_schedule s w = elim (Bool-cases (s == "" || w.status_requested == s)) [
  | inl y ↦ rw y refl
  | inr n ↦ rw n refl
]

-- The status that is wanted of a worker by its own schedule.
abbrev pub wanted : Worker → ℕ → String
wanted w t = scheduled_worker_status w.sleep_schedule w.status t

pub asked_of-wanted : (s : String) (w : Worker) (t : ℕ) → wanted (asked_of s w) t ≡ wanted w t
asked_of-wanted s w t = rw (asked_of-status s w, asked_of-sleep_schedule s w) refl

-- A schedule that wants a status of a worker wants the one of its time, and then nothing of a worker that
-- is in it.
pub scheduled-time_based :
    (s : Schedule) (status : String) (t : ℕ)
    → scheduled_worker_status s status t ≢ ""
    → scheduled_worker_status s status t ≡ time_based_status s t
unfolding scheduled_worker_status
scheduled-time_based s status t h = elim (Bool-cases (not s.schedule_active)) [
  | inl y ↦ absurd (h (rw y refl))
  | inr n ↦ elim (Bool-cases (time_based_status s t == status)) [
    | inl y ↦ absurd (h (rw (n, y) refl))
    | inr m ↦ rw (n, m) refl
  ]
]

pub scheduled-reached :
    (s : Schedule) (status : String) (t : ℕ)
    → time_based_status s t ≡ status
    → scheduled_worker_status s status t ≡ ""
unfolding scheduled_worker_status
scheduled-reached s status t h =
    let same = (eq_iff (time_based_status s t) status).1 h in
    elim (Bool-cases (not s.schedule_active)) [ inl y ↦ rw y refl | inr n ↦ rw (n, same) refl ]
