-- ===== src/Store/Tasks.antt =====
-- crates/missive-store/src/repository.rs: the local view of an A2A task.
use missive.Common.{ℕ, Bool, true, false, Option}
use missive.Common.Str.{Str, lit}

pub data TaskState : Type 0 where
  submitted working input_required completed failed cancelled unknown : TaskState

unfoldable pub task_state_as_str : TaskState → Str
task_state_as_str TaskState.submitted = lit "submitted"
task_state_as_str TaskState.working = lit "working"
task_state_as_str TaskState.input_required = lit "input_required"
task_state_as_str TaskState.completed = lit "completed"
task_state_as_str TaskState.failed = lit "failed"
task_state_as_str TaskState.cancelled = lit "cancelled"
task_state_as_str TaskState.unknown = lit "unknown"

-- The derived `PartialEq`.
unfoldable pub same_state : TaskState → TaskState → Bool
same_state TaskState.submitted TaskState.submitted = true
same_state TaskState.working TaskState.working = true
same_state TaskState.input_required TaskState.input_required = true
same_state TaskState.completed TaskState.completed = true
same_state TaskState.failed TaskState.failed = true
same_state TaskState.cancelled TaskState.cancelled = true
same_state TaskState.unknown TaskState.unknown = true
same_state _ _ = false

pub data TaskSource : Type 0 where
  remote local gateway : TaskSource

-- The columns that the collectives read. A time is a number of units since the earliest time.
pub record TaskRecord : Type 0 where
  pub task_id : Str
  pub agent_alias : Str
  pub context_id : Option Str
  pub state : TaskState
  pub source : TaskSource
  pub updated_at : ℕ
