-- ===== src/Manager/Worker/TestTask.antt =====
-- flamenco/testtask.go: test tasks for a worker. The tasks themselves and their paths are left out; what the file
-- system and the database do for each of them is told.
use flamenco_manager.Common.{
  ℕ, suc, String, Bool, not, Option, none, some, List, [], ◌∷◌, if◌then◌else◌, ◌==◌,
}

pub data TestFailure : Type 0 where
  not_testing : String → TestFailure
  no_storage not_copied no_output not_inserted : TestFailure
  no_task_types : TestFailure
  only_unknown_task_types : List String → TestFailure

-- What succeeds for one test task.
pub record Made : Type 0 where
  pub storage : Bool
  pub copied : Bool
  pub output : Bool
  pub inserted : Bool

-- The `SupportedTaskTypes` of a worker, and what succeeds for the first test task, the second and so on.
pub record Tests : Type 0 where
  pub supported_task_types : List String
  pub made : ℕ → Made

-- `queueTestBlenderRenderTask`.
unfoldable pub queue_test_blender_render_task : Made → Option TestFailure
queue_test_blender_render_task m =
    if not m.storage
    then some no_storage
    else if not m.copied
    then some not_copied
    else if not m.output
    then some no_output
    else if not m.inserted
    then some not_inserted
    else none

-- What the loop of `CreateTestTask` ends with: the task types that are queued, or an error.
pub data Queueing : Type 0 where
  queueing : List String → Queueing
  stopped : TestFailure → Queueing

-- After one task type.
unfoldable pub queued_after : String → Option TestFailure → Queueing → Queueing
queued_after task_type (some e) rest = stopped e
queued_after task_type none (stopped e) = stopped e
queued_after task_type none (queueing ts) = queueing (task_type ∷ ts)

-- The loop: `testTaskCreators` has one task type.
unfoldable pub queue_tests : (ℕ → Made) → ℕ → List String → Queueing
unfolding queued_after queue_test_blender_render_task
queue_tests made n [] = queueing []
queue_tests made n (t ∷ ts) =
    let unknown = queue_tests made n ts in
    let known = queue_tests made (suc n) ts in
    if t == "test-blender-render"
    then queued_after t (queue_test_blender_render_task (made n)) known
    else unknown

-- What `CreateTestTask` returns: the task types that are queued, or its error.
pub data Created : Type 0 where
  created : List String → Created
  not_created : TestFailure → Created

-- Its end.
unfoldable pub created_of : List String → Queueing → Created
created_of types (stopped e) = not_created e
created_of [] (queueing []) = not_created no_task_types
created_of (t ∷ ts) (queueing []) = not_created (only_unknown_task_types (t ∷ ts))
created_of types (queueing (q ∷ qs)) = created (q ∷ qs)

-- `CreateTestTask`.
unfoldable pub create_test_task : String → Tests → Created
unfolding created_of queue_tests
create_test_task status t =
    if not (status == "testing")
    then not_created (not_testing status)
    else created_of t.supported_task_types (queue_tests t.made 0 t.supported_task_types)
