-- ===== src/Examples/ManagerWorkers.antt =====
-- The manager's workers at concrete inputs.
use flamenco_manager.Common.{
  ◌∷◌, [], ℕ, ◌+◌, ◌*◌, String, ◌≡◌, ◌≢◌, ◌↔◌, ◌⊎◌, inr, refl, true, false, none, some, [], arith,
  eq_iff, sym, ◌∙◌,
}
use flamenco_manager.Manager.TimeOfDay.{per_minute, on_date, is_before, make_time_of_day}
use flamenco_manager.Manager.Sleep.{
  Schedule, time_based_status, calculate_next_check, calc_next, cleanup_days_of_week, earliest_time,
  scheduled_worker_status,
}
use flamenco_manager.Dashboard.Requests.{plain}
use flamenco_manager.Manager.Worker.{Worker, Copies, found, request_status_change}
use flamenco_manager.Manager.Worker.Handlers.{
  no_content, worker_ack_status_change, worker_sign_off, worker_sign_on, set_sleep_schedule,
  prepared, store_schedule, checked_at, with_schedule, request_worker_status,
}
use flamenco_manager.Manager.Worker.Asking.{Task, worker_may_run_task, worker_action}
use flamenco_manager.Manager.Worker.TestTask.{
  Tests, TestFailure, created, not_created, only_unknown_task_types, create_test_task, queue_tests,
  created_of,
}
use flamenco_manager.Manager.Worker.Tested.{MayQueue, create_test_task-cases}
use flamenco_manager.Manager.Worker.Requests.{worker_may_run_task_iff}
use flamenco_manager.Manager.Worker.Delivery.{worker_sign_on-asleep, IsResting}
use flamenco_manager.Manager.Worker.Reached.{here, next, acts, signs_off, Reach-shutdown}
use flamenco_manager.Manager.Worker.Scheduled.{set_sleep_schedule-settles}

abbrev daytime : Schedule
daytime = record {
  schedule_active = true;
  days_of_week = [];
  time_start = some (record { hour = 9; minute = 0 });
  time_end = some (record { hour = 17; minute = 30 });
  next_check = none;
}

abbrev worker : String → String → Worker
worker status requested = record {
  status = status;
  status_requested = requested;
  lazy_status_request = false;
  current_task = some 7;
  sleep_schedule = daytime;
}

abbrev awake : Worker
awake = worker "awake" ""

-- A worker that supports no test task.
abbrev no_tests : Tests
no_tests = record {
  supported_task_types = [];
  made = λ n. record { storage = false; copied = false; output = false; inserted = false };
}

-- A worker that tests, and that supports another task type, too.
abbrev tests : Tests
tests = record {
  supported_task_types = "sleep" ∷ "test-blender-render" ∷ [];
  made = λ n. record { storage = true; copied = true; output = true; inserted = true };
}

abbrev task : Task
task = record { status = "active"; worker_id = some 3 }

worker_may_run_task_iff_example : (worker_may_run_task 3 awake (some task) ≡ none) ↔ (
    (t : Task) × (some task ≡ some t)
    × ((((t.worker_id ≡ none) ⊎ (t.worker_id ≡ some 3)) × (t.status ≡ "active"))
        × ((awake.status_requested ≡ "")
            ⊎ (awake.lazy_status_request ≡ true)
            ⊎ (awake.status_requested ≡ "awake")
            ⊎ (awake.status_requested ≡ "testing"))))
worker_may_run_task_iff_example = worker_may_run_task_iff 3 awake (some task)

abbrev asleep : String
asleep = "asleep"

abbrev going : Worker
going = (request_status_change "asleep" true true (found awake)).0.stored

abbrev sleeping : Worker
sleeping = worker "asleep" "shutdown"

abbrev signed_off : Worker
signed_off = (worker_sign_off true true true sleeping).0.stored

worker_sign_on-asleep_example :
    ((worker_sign_off true true true sleeping).1 ≡ no_content)
    × ((worker_sign_on true true signed_off).1 ≡ no_content)
    × ((worker_sign_on true true signed_off).0.stored.status ≡ "starting")
    × ((worker_sign_on true true signed_off).0.stored.current_task ≡ none)
    × (((worker_sign_on true true signed_off).0.stored.status_requested ≡ "asleep")
        ↔ IsResting sleeping)
    × (((worker_sign_on true true signed_off).0.stored.status_requested ≡ "asleep")
        ⊎ ((worker_sign_on true true signed_off).0.stored.status_requested ≡ ""))
worker_sign_on-asleep_example = worker_sign_on-asleep sleeping

-- A button asks an awake worker to shut down, and it signs off.
abbrev stopping : Worker
stopping = (worker_action (plain "shutdown") no_tests true awake).0.stored

abbrev gone : Worker
gone = (worker_sign_off true true true stopping).0.stored

awake-stands : awake.status ≢ "shutdown"
awake-stands e = ground (arith, eq_iff "awake" "shutdown")

Reach-shutdown_example : gone.status ≢ "shutdown"
Reach-shutdown_example =
    Reach-shutdown awake gone
      (next (next here (acts (plain "shutdown") no_tests true)) (signs_off true true true))
      awake-stands

-- Ten and eleven in the morning of the third day.
abbrev ten : ℕ
ten = (2 * 1440 + 600) * per_minute

abbrev eleven : ℕ
eleven = (2 * 1440 + 660) * per_minute

abbrev scheduled : Copies
scheduled = found (record (with_schedule (checked_at ten daytime) awake) {
  status_requested = "asleep";
  lazy_status_request = false;
})

is_scheduled : set_sleep_schedule daytime ten true true (found awake) ≡ some scheduled
unfolding set_sleep_schedule prepared cleanup_days_of_week store_schedule request_worker_status
    scheduled_worker_status time_based_status request_status_change found is_before make_time_of_day
is_scheduled = refl

wanted_now :
    scheduled_worker_status scheduled.stored.sleep_schedule scheduled.stored.status ten ≡ "asleep"
unfolding scheduled_worker_status time_based_status found is_before make_time_of_day with_schedule
    checked_at
wanted_now = refl

wants_sleep :
    scheduled_worker_status scheduled.stored.sleep_schedule scheduled.stored.status ten ≢ ""
wants_sleep e = let f = sym wanted_now ∙ e in ground (arith, eq_iff "asleep" "", f)

set_sleep_schedule-settles_example :
    scheduled_worker_status
      (worker_ack_status_change "asleep" true scheduled.stored).0.stored.sleep_schedule
      (worker_ack_status_change "asleep" true scheduled.stored).0.stored.status
      eleven
    ≡ ""
unfolding found calculate_next_check calc_next on_date earliest_time
set_sleep_schedule-settles_example =
    set_sleep_schedule-settles daytime ten eleven awake scheduled is_scheduled wants_sleep
      (inr (
        record { hour = 9; minute = 0 },
        record { hour = 17; minute = 30 },
        refl,
        refl,
        omega arith,
        omega arith,
      ))
      (omega arith) (omega arith)

create_test_task-cases_example :
    ((create_test_task "testing" tests ≡ created ("test-blender-render" ∷ []))
      × MayQueue "testing" tests ("test-blender-render" ∷ []))
    ⊎ ((e : TestFailure) × (create_test_task "testing" tests ≡ not_created e)
        × ¬ MayQueue "testing" tests ("test-blender-render" ∷ []))
create_test_task-cases_example = create_test_task-cases "testing" tests

-- Another task type alone is refused.
refused_test :
    create_test_task "testing" (record tests { supported_task_types = "sleep" ∷ [] })
    ≡ not_created (only_unknown_task_types ("sleep" ∷ []))
unfolding create_test_task queue_tests created_of
refused_test = refl
