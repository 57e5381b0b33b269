-- ===== src/Manager/Worker/Handlers.antt =====
-- flamenco/workers.go, flamenco/timeout_checker.go, flamenco/sleep_scheduler.go and flamenco/dashboard.go:
-- what is done with a worker that has just been read from the database.
use flamenco_manager.Common.{
  String, Bool, true, false, ◌&&◌, ◌||◌, Option, none, some, if◌then◌else◌, ◌==◌, ℕ, [],
}
use mathlib.Core.Option
use flamenco_manager.Manager.Sleep.{
  Schedule, scheduled_worker_status, calculate_next_check, cleanup_days_of_week,
}
use flamenco_manager.Manager.Worker.{
  Worker, Copies, found, changed, set_status, set_awake, request_status_change, ack_status_change,
  set_timeout_status,
}

-- What `WorkerSignOff` asks for when all is done, for a worker that sleeps.
unfoldable pub stays_asleep : Worker → Bool
stays_asleep w =
    w.status == "asleep" && (w.status_requested == "" || w.status_requested == "shutdown")

-- The HTTP statuses of the answers.
pub data Answer : Type 0 where
  no_content bad_request server_error : Answer
  ok_with : String → Answer
  locked : String → Answer

-- `WorkerSignOff`: `returned` is whether its tasks are returned without an error, and each of the other two
-- whether an update of the worker succeeds. The deferred request comes last; its error is lost.
unfoldable pub worker_sign_off : (returned acked asked : Bool) → Worker → Copies × Answer
unfolding stays_asleep found ack_status_change request_status_change
worker_sign_off returned acked asked w =
    let off = ack_status_change "offline" acked (found w) in
    let last =
      if stays_asleep w then (request_status_change "asleep" false asked off.0).0 else off.0 in
    (last, if returned && acked then no_content else server_error)

-- A worker without a current task.
unfoldable pub idle : Worker → Worker
idle w = record w { current_task = none }

-- `WorkerSignOn`, without the fields that have no part in the status: the error of `SetStatus` is not
-- looked at.
unfoldable pub worker_sign_on : (started seen : Bool) → Worker → Copies × Answer
unfolding idle found set_status changed
worker_sign_on started seen w =
    let c = (set_status "starting" started (record { memory = idle w; stored = w })).0 in
    (
      record c { stored = changed seen (idle c.stored) c.stored },
      if seen then no_content else server_error,
    )

-- `WorkerAckStatusChange`: the answer does not depend on the error.
unfoldable pub worker_ack_status_change : String → Bool → Worker → Copies × Answer
unfolding found ack_status_change
worker_ack_status_change status ok w = ((ack_status_change status ok (found w)).0, no_content)

-- `WorkerGetStatusChange`.
unfoldable pub worker_get_status_change : Worker → Answer
worker_get_status_change w =
    if w.status_requested == "" then no_content else ok_with w.status_requested

-- The start of `ScheduleTask`: the worker is awake, and `some` answer means that it gets no task.
unfoldable pub schedule_task : Bool → Worker → Copies × Option Answer
unfolding found set_awake
schedule_task ok w =
    let c = (set_awake ok (found w)).0 in
    (c, if c.memory.status_requested == "" then none else some (locked c.memory.status_requested))

-- What `checkWorkers` reads of a worker: its projection leaves out all but the status here. The fields
-- that are not read have their zero values.
unfoldable pub projected : Worker → Worker
projected w = record {
  status = w.status;
  status_requested = "";
  lazy_status_request = false;
  current_task = none;
  sleep_schedule = record {
    schedule_active = false;
    days_of_week = [];
    time_start = none;
    time_end = none;
    next_check = none;
  };
}

-- `checkWorkers` with a worker that is awake and was seen too long ago.
unfoldable pub check_worker : Bool → Worker → Copies
unfolding projected set_timeout_status
check_worker ok w = set_timeout_status ok (record { memory = projected w; stored = w })

-- `timeoutTask` with the worker of a task that was pinged too long ago.
unfoldable pub timeout_on_task : Bool → Worker → Copies
unfolding found set_timeout_status
timeout_on_task ok w = set_timeout_status ok (found w)

-- `RequestWorkerStatus` at a time; an error is only logged.
unfoldable pub request_worker_status : ℕ → Bool → Copies → Copies
unfolding scheduled_worker_status request_status_change
request_worker_status now ok c =
    let scheduled = scheduled_worker_status c.memory.sleep_schedule c.memory.status now in
    if scheduled == "" || c.memory.status_requested == scheduled
    then c
    else (request_status_change scheduled false ok c).0

unfoldable pub with_schedule : Schedule → Worker → Worker
with_schedule s w = record w { sleep_schedule = s }

unfoldable pub checked_at : ℕ → Schedule → Schedule
unfolding calculate_next_check
checked_at now s = record s { next_check = some (calculate_next_check s now) }

-- The schedule that `SetSleepSchedule` stores: `none` is the panic of `cleanupDaysOfWeek`.
unfoldable pub prepared : Schedule → ℕ → Option Schedule
unfolding cleanup_days_of_week checked_at
prepared s now =
    Option.map (λ days. checked_at now (record s { days_of_week = days }))
      (cleanup_days_of_week s.days_of_week)

-- `SetSleepSchedule` once the schedule is prepared.
unfoldable pub store_schedule : Schedule → ℕ → (stored_ok asked : Bool) → Copies → Copies
unfolding with_schedule request_worker_status
store_schedule s now false asked c = c
store_schedule s now true asked c =
    request_worker_status now asked
      (record { memory = with_schedule s c.memory; stored = with_schedule s c.stored })

-- `SetSleepSchedule`.
unfoldable pub set_sleep_schedule : Schedule → ℕ → (stored_ok asked : Bool) → Copies → Option Copies
unfolding prepared store_schedule
set_sleep_schedule s now stored_ok asked c =
    Option.map (λ p. store_schedule p now stored_ok asked c) (prepared s now)

-- `refreshWorker`.
unfoldable pub refresh_worker : ℕ → (stored_ok asked : Bool) → Worker → Option Copies
unfolding found set_sleep_schedule
refresh_worker now stored_ok asked w =
    set_sleep_schedule w.sleep_schedule now stored_ok asked (found w)
