-- ===== src/Manager/Worker.antt =====
-- flamenco/workers.go: a worker's status and the status that is requested of it. A worker is held twice,
-- as a handler's copy in memory and as the document in the database; each update of the database
-- is told by `ok` whether it succeeds. An unset text is "".
pub mod TestTask
pub mod Asking
pub mod Handlers
pub mod Requests
pub mod Timeouts
pub mod Offered
pub mod Tested
pub mod Delivery
pub mod Wishes
pub mod Scheduled
pub mod Standing
pub mod Reached
use flamenco_manager.Common.{
  String, Bool, true, false, ◌||◌, Option, none, some, if◌then◌else◌, ◌==◌, ℕ,
}
use flamenco_manager.Manager.Sleep.{Schedule}

-- The fields of `Worker` that the operations here use.
pub record Worker : Type 0 where
  pub status : String
  pub status_requested : String
  pub lazy_status_request : Bool
  pub current_task : Option ℕ
  pub sleep_schedule : Schedule

pub record Copies : Type 0 where
  pub memory : Worker
  pub stored : Worker

-- A worker as `FindWorker` gives it.
unfoldable pub found : Worker → Copies
found w = record { memory = w; stored = w }

pub data Failure : Type 0 where
  not_requestable : String → Failure
  not_timed_out update_failed : Failure

-- The copies after an operation, and its error.
abbrev pub Outcome : Type 0
Outcome = Copies × Option Failure

-- `UpdateId`, after the copy in memory has become `memory`.
unfoldable pub update : Bool → Worker → Worker → Outcome
update true memory stored = (record { memory = memory; stored = stored }, none)
update false memory stored = (record { memory = memory; stored = stored }, some update_failed)

-- A document with changes that are made only if the update succeeds.
unfoldable pub changed : Bool → Worker → Worker → Worker
changed true new old = new
changed false new old = old

-- `workerStatusRequestable`.
unfoldable pub requestable : String → Bool
requestable s = s == "asleep" || s == "awake" || s == "shutdown"

-- `workerStatusRunnable`.
unfoldable pub runnable : String → Bool
runnable s = s == "awake" || s == "testing" || s == ""

-- `SetStatus`.
unfoldable pub set_status : String → Bool → Copies → Outcome
unfolding update changed
set_status status ok c =
    update ok (record c.memory { status = status })
      (changed ok (record c.stored { status = status }) c.stored)

-- `SetAwake`.
unfoldable pub set_awake : Bool → Copies → Outcome
unfolding set_status
set_awake ok c =
    if c.memory.status == "awake" || c.memory.status == "testing"
    then (c, none)
    else set_status "awake" ok c

-- `SetCurrentTask`.
unfoldable pub set_current_task : ℕ → Bool → Copies → Outcome
unfolding update changed
set_current_task task ok c =
    update ok (record c.memory { current_task = some task })
      (changed ok (record c.stored { current_task = some task }) c.stored)

-- A worker of which a status is requested.
unfoldable pub requesting : String → Bool → Worker → Worker
requesting status lazy w = record w { status_requested = status; lazy_status_request = lazy }

-- `RequestStatusChange`.
unfoldable pub request_status_change : String → Bool → Bool → Copies → Outcome
unfolding requestable requesting update changed
request_status_change status lazy ok c =
    if requestable status
    then update ok (requesting status lazy c.memory)
        (changed ok (requesting status lazy c.stored) c.stored)
    else (c, some (not_requestable status))

-- A worker in a status, of which none is requested.
unfoldable pub settled : String → Worker → Worker
settled status w = record w { status = status; status_requested = "" }

-- `AckStatusChange`.
unfoldable pub ack_status_change : String → Bool → Copies → Outcome
unfolding settled update changed
ack_status_change status ok c =
    if status == "shutdown"
    then (c, none)
    else update ok (settled status c.memory) (changed ok (settled status c.stored) c.stored)

-- `AckTimeout`: the request is cleared in memory alone.
unfoldable pub ack_timeout : Bool → Copies → Outcome
unfolding settled update changed
ack_timeout ok c =
    if c.memory.status == "timeout"
    then update ok (settled "offline" c.memory)
        (changed ok (record c.stored { status = "offline" }) c.stored)
    else (c, some not_timed_out)

-- The two updates of `setTimeoutStatus`; the status of the copy in memory is the one to return to.
unfoldable pub timed_out : String → Worker → Worker
timed_out back_to w = record w { status = "timeout"; status_requested = back_to }

-- `setTimeoutStatus`, without the tasks that it returns; an error is only logged.
unfoldable pub set_timeout_status : Bool → Copies → Copies
unfolding timed_out changed
set_timeout_status ok c =
    if c.memory.status_requested == ""
    then record {
      memory = timed_out c.memory.status c.memory;
      stored = changed ok (timed_out c.memory.status c.stored) c.stored;
    }
    else record {
      memory = record c.memory { status = "timeout" };
      stored = changed ok (record c.stored { status = "timeout" }) c.stored;
    }
