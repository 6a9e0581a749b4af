-- ===== src/Gateway/Busy.antt =====
-- crates/missive-gateway/src/busy.rs: what happens to an input that arrives while its source
-- already has an operation in flight. A function that takes `&mut state` returns the new state.
pub mod Queue
pub mod Modes
pub mod Configured
pub mod Accounting
pub mod Effects
mod Examples
use missive.Common.{
  ℕ, zero, suc, ◌+◌, ◌-◌, Bool, true, false, not, ◌&&◌, Option, none, some, List, [], ◌∷◌, ◌++◌,
  String, leb, ltb, if◌then◌else◌, length, get_elem?, any, is_empty,
}
use missive.Common.Str.{Str, trim, str_len, is_control}
use missive.Core.Json.{Metadata}
use missive.Core.Error.{
  Result, ok, err, hang, ◌>>=◌, ◌>>◌, fail_if, expect, validation_error, orchestration_error,
}
use missive.Core.Config.{BusyInputMode, BusyInputConfig}
use missive.Gateway.Input.{
  BusyInputDisposition, BusyOperationState, BusyInputSource, validate_source_part, new_source,
  BusyInput, new_input, InFlightOperation, new_operation, BusySteeringTarget, is_none,
  steering_target, QueuedBusyInput, BusyInputState, queue_depth, BusyInputAction, BusyInputOutcome,
}

unfoldable pub push_queue :
    BusyInputConfig → BusyInputState → BusyInput → Result (ℕ × BusyInputState)
push_queue policy state input =
    let position = length state.queued_inputs + 1 in
    if leb policy.max_queue_depth (length state.queued_inputs)
    then err (orchestration_error "busy input queue for source {}:{} is full at {} item(s)")
    else ok (
      position,
      record state {
        queued_inputs = state.queued_inputs ++ record { position = position; input = input } ∷ [];
      },
    )

-- `state.queued_inputs[position - 1].input.input_id`, an index that panics out of bounds.
unfoldable pub queued_id : BusyInputState → ℕ → Result Str
queued_id state position = do
  q ← expect (get_elem? state.queued_inputs (position - 1))
  ok q.input.input_id

unfoldable pub apply_queue :
    BusyInputConfig
    → BusyInputState
    → BusyInput
    → BusyInputMode
    → Bool
    → List BusyInputAction
    → Result BusyInputOutcome
unfolding push_queue queued_id
apply_queue policy state input requested_mode fallback_used actions = do
  (position, state') ← push_queue policy state input
  input_id ← queued_id state' position
  ok (record {
    requested_mode = requested_mode;
    mode_used = BusyInputMode.queue;
    fallback_used = fallback_used;
    disposition = BusyInputDisposition.queued;
    actions = actions ++ BusyInputAction.queue_input input_id position ∷ [];
    state = state';
  })

-- The actions that interrupting the active operation asks for, in the order of the pushes.
unfoldable pub interrupt_actions : BusyInputConfig → InFlightOperation → List BusyInputAction
interrupt_actions policy op =
    BusyInputAction.mark_active_interrupting op.operation_id
    ∷ ((if op.local_wait_active then BusyInputAction.cancel_local_wait op.operation_id ∷ [] else [])
        ++ (elim op.subscription_job_id [
          | none ↦ []
          | some job ↦ BusyInputAction.cancel_subscription op.operation_id job ∷ []
        ]
            ++ (if policy.interrupt_remote_cancel && op.remote_task_cancellable
                then elim op.task_id [
                  | none ↦ []
                  | some task ↦
                      BusyInputAction.request_remote_task_cancellation op.operation_id
                        op.agent_alias task
                      ∷ []
                ]
                else [])))

unfoldable pub apply_interrupt :
    BusyInputConfig
    → BusyInputState
    → BusyInput
    → BusyInputMode
    → Bool
    → List BusyInputAction
    → Result BusyInputOutcome
unfolding push_queue queued_id interrupt_actions
apply_interrupt policy state input requested_mode fallback_used actions = do
  active ← expect state.active
  let marked = record state {
    active = some (record active { state = BusyOperationState.interrupting });
  }
  (position, state') ← push_queue policy marked input
  input_id ← queued_id state' position
  ok (record {
    requested_mode = requested_mode;
    mode_used = BusyInputMode.interrupt;
    fallback_used = fallback_used;
    disposition = BusyInputDisposition.interrupt_queued;
    actions =
        (actions ++ interrupt_actions policy active)
        ++ BusyInputAction.queue_input input_id position ∷ [];
    state = state';
  })

abbrev pub ApplyMode : Type 0
ApplyMode =
    BusyInputConfig
    → BusyInputState
    → BusyInput
    → BusyInputMode
    → BusyInputMode
    → Bool
    → List BusyInputAction
    → Result BusyInputOutcome

-- `retry` is the call of `apply_mode` at the end of the function.
unfoldable pub apply_steer :
    ApplyMode
    → BusyInputConfig
    → BusyInputState
    → BusyInput
    → BusyInputMode
    → List BusyInputAction
    → Result BusyInputOutcome
unfolding steering_target
apply_steer retry policy state input requested_mode actions = do
  active ← expect state.active
  elim (steering_target active) [
    | some target ↦ ok (record {
      requested_mode = requested_mode;
      mode_used = BusyInputMode.steer;
      fallback_used = false;
      disposition = BusyInputDisposition.steered;
      actions =
          actions
          ++ BusyInputAction.append_follow_up active.operation_id input.input_id target.context_id
              target.task_id
            ∷ [];
      state = state;
    })
    | none ↦
        let reason : String =
          if active.steerable
          then "active operation is marked steerable but has no context_id or task_id"
          else "active operation does not accept follow-up input in its current protocol state" in
        let fallback = policy.unsupported_steer_fallback in
        retry policy state input requested_mode fallback true (
          actions ++ BusyInputAction.unsupported_steer_fallback input.input_id fallback reason ∷ [])
  ]

-- One round of `apply_mode`, over the call that `apply_steer` makes.
unfoldable pub apply_mode_once : ApplyMode → ApplyMode
unfolding apply_steer
apply_mode_once retry policy state input requested_mode mode fallback_used actions =
    if is_none state.active
    then ok (record {
      requested_mode = requested_mode;
      mode_used = mode;
      fallback_used = fallback_used;
      disposition = BusyInputDisposition.start_now;
      actions = actions ++ BusyInputAction.start_input input.input_id ∷ [];
      state = state;
    })
    else elim mode [
      | BusyInputMode.queue ↦ apply_queue policy state input requested_mode fallback_used actions
      | BusyInputMode.interrupt ↦
          apply_interrupt policy state input requested_mode fallback_used actions
      | BusyInputMode.steer ↦ apply_steer retry policy state input requested_mode actions
    ]

-- `apply_mode` and `apply_steer` call one another: the number bounds how often.
unfoldable pub apply_mode : ℕ → ApplyMode
unfolding apply_mode_once
apply_mode zero policy state input requested_mode mode fallback_used actions = hang
apply_mode (suc n) policy state input requested_mode mode fallback_used actions =
    apply_mode_once (apply_mode n) policy state input requested_mode mode fallback_used actions

unfoldable pub apply_busy_input :
    ℕ → BusyInputConfig → BusyInputState → BusyInput → Result BusyInputOutcome
unfolding apply_mode
apply_busy_input n policy state input =
    apply_mode n policy state input policy.mode policy.mode false []
