-- ===== src/Gateway/Input.antt =====
-- crates/missive-gateway/src/busy.rs: sources, inputs, operations in flight, the queue, and what comes
-- out of the policy for busy input.
use missive.Common.{
  ℕ, Bool, true, false, not, ◌&&◌, Option, none, some, List, [], String, ltb, if◌then◌else◌, length,
  any, is_empty,
}
use missive.Common.Str.{Str, trim, str_len, is_control}
use missive.Core.Json.{Metadata}
use missive.Core.Error.{Result, ok, ◌>>◌, fail_if, validation_error}
use missive.Core.Config.{BusyInputMode}

pub data BusyInputDisposition : Type 0 where
  start_now queued interrupt_queued steered : BusyInputDisposition

pub data BusyOperationState : Type 0 where
  running interrupting : BusyOperationState

pub record BusyInputSource : Type 0 where
  pub source_kind : Str
  pub source_id : Str

unfoldable pub validate_source_part : Str → Result (Unit {0})
validate_source_part value = do
  fail_if (is_empty (trim value)) (validation_error "{label} cannot be empty")
  fail_if (ltb 256 (str_len value)) (validation_error "{label} must be at most 256 bytes")
  fail_if (any is_control value) (validation_error "{label} must not contain control characters")

-- `BusyInputSource::new`.
unfoldable pub new_source : Str → Str → Result BusyInputSource
new_source source_kind source_id = do
  validate_source_part source_kind
  validate_source_part source_id
  ok (record { source_kind = source_kind; source_id = source_id })

pub record BusyInput : Type 0 where
  pub input_id : Str
  pub source : BusyInputSource
  pub agent_alias : Str
  pub context_id : Option Str
  pub task_id : Option Str
  pub metadata : Metadata

-- `BusyInput::new`.
unfoldable pub new_input : Str → BusyInputSource → Str → Result BusyInput
new_input input_id source agent_alias = do
  validate_source_part input_id
  ok (record {
    input_id = input_id;
    source = source;
    agent_alias = agent_alias;
    context_id = none;
    task_id = none;
    metadata = [];
  })

pub record InFlightOperation : Type 0 where
  pub operation_id : Str
  pub agent_alias : Str
  pub context_id : Option Str
  pub task_id : Option Str
  pub state : BusyOperationState
  pub local_wait_active : Bool
  pub subscription_job_id : Option Str
  pub remote_task_cancellable : Bool
  pub steerable : Bool

-- `InFlightOperation::new`.
unfoldable pub new_operation : Str → Str → Result InFlightOperation
new_operation operation_id agent_alias = do
  validate_source_part operation_id
  ok (record {
    operation_id = operation_id;
    agent_alias = agent_alias;
    context_id = none;
    task_id = none;
    state = BusyOperationState.running;
    local_wait_active = false;
    subscription_job_id = none;
    remote_task_cancellable = false;
    steerable = false;
  })

pub record BusySteeringTarget : Type 0 where
  pub context_id : Option Str
  pub task_id : Option Str

abbrev pub is_none {ℓ} : {A : Type ℓ} → Option A → Bool
is_none none = true
is_none (some a) = false

unfoldable pub steering_target : InFlightOperation → Option BusySteeringTarget
steering_target op =
    if not op.steerable
    then none
    else if is_none op.context_id && is_none op.task_id
    then none
    else some (record { context_id = op.context_id; task_id = op.task_id })

-- `position` counts from one.
pub record QueuedBusyInput : Type 0 where
  pub position : ℕ
  pub input : BusyInput

pub record BusyInputState : Type 0 where
  pub active : Option InFlightOperation
  pub queued_inputs : List QueuedBusyInput

unfoldable pub queue_depth : BusyInputState → ℕ
queue_depth s = length s.queued_inputs

pub data BusyInputAction : Type 0 where
  start_input : (input_id : Str) → BusyInputAction
  queue_input : (input_id : Str) (position : ℕ) → BusyInputAction
  mark_active_interrupting : (operation_id : Str) → BusyInputAction
  cancel_local_wait : (operation_id : Str) → BusyInputAction
  cancel_subscription : (operation_id gateway_job_id : Str) → BusyInputAction
  request_remote_task_cancellation : (operation_id agent_alias task_id : Str) → BusyInputAction
  append_follow_up :
      (operation_id input_id : Str) (context_id task_id : Option Str) → BusyInputAction
  unsupported_steer_fallback :
      (input_id : Str) (fallback_mode : BusyInputMode) (reason : String) → BusyInputAction

pub record BusyInputOutcome : Type 0 where
  pub requested_mode : BusyInputMode
  pub mode_used : BusyInputMode
  pub fallback_used : Bool
  pub disposition : BusyInputDisposition
  pub actions : List BusyInputAction
  pub state : BusyInputState
