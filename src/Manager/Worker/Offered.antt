-- ===== src/Manager/Worker/Offered.antt =====
-- The buttons of the dashboard's rows, and what the manager does when one is pressed.
use flamenco_manager.Common.{
  ℕ, String, Bool, ◌==◌, filter, none, true, false, ◌||◌, some, ◌≡◌, refl, List, [], ◌∷◌,
}
use mathlib.Core.List.{Memᴰ}
use flamenco_manager.Dashboard.Actions.{
  ActionKey, offline_lazy, offline_immediate, asleep_lazy, asleep_immediate, wakeup, testjob,
  Status,
}
use flamenco_manager.Manager.Worker.{Worker, requesting, ack_timeout}
use flamenco_manager.Manager.Worker.TestTask.{Made, Tests, queue_test_blender_render_task}
use flamenco_manager.Manager.Worker.Asking.{ActionResult, done, test_tasks}

-- A worker in the status report: an unset status is sent as "".
unfoldable pub listed : Worker → Status
listed w = record { status = some w.status; requested = some w.status_requested }

-- The document after an action is accepted, and the answer.
unfoldable pub pressed : ActionKey → Worker → Worker
unfolding requesting
pressed offline_lazy w = requesting "shutdown" true w
pressed offline_immediate w = requesting "shutdown" false w
pressed asleep_lazy w = requesting "asleep" true w
pressed asleep_immediate w = requesting "asleep" false w
pressed wakeup w = requesting "awake" false w
pressed ActionKey.ack_timeout w = record w { status = "offline" }
pressed testjob w = w

-- The one type of test tasks that there is.
abbrev pub is_test_task_type : String → Bool
is_test_task_type t = t == "test-blender-render"

abbrev pub has_test_task_type : List String → Bool
has_test_task_type [] = false
has_test_task_type (t ∷ ts) = is_test_task_type t || has_test_task_type ts

-- Everything succeeds for a test task.
abbrev pub IsMade : Made → Type 0
IsMade m = (m.storage ≡ true) × (m.copied ≡ true) × (m.output ≡ true) × (m.inserted ≡ true)

-- The worker supports the test task, and everything succeeds for it.
abbrev pub CanTest : Tests → Type 0
CanTest t = (has_test_task_type t.supported_task_types ≡ true) × ((n : ℕ) → IsMade (t.made n))

pub queue_test_blender_render_task-made :
    (m : Made) → IsMade m → queue_test_blender_render_task m ≡ none
unfolding queue_test_blender_render_task
queue_test_blender_render_task-made m (s, c, o, i) = rw (s, c, o, i) refl

unfoldable pub answered : ActionKey → Tests → ActionResult
answered testjob tests = test_tasks (filter is_test_task_type tests.supported_task_types)
answered _ tests = done
