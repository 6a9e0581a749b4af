-- ===== src/Gateway/Busy/Examples.antt =====
-- Runs of crates/missive-gateway/src/busy.rs on one operation with a task, an input and a policy.
use missive.Core.Config.Text.{validate_named_config_identifier}
use missive.Common.{ℕ, suc, ◌≡◌, refl, true, false, none, some, [], ◌∷◌, ◌≢◌, any, ◌&&◌, not, arith}
use missive.Common.Str.{lit, str_len}
use missive.Core.Error.{ok, hang, Returns}
use missive.Core.Config.{BusyInputMode, BusyInputConfig, default_busy_input, validate_busy_input}
use missive.Core.Config.Loaded.{busy_input_config_for_source}
use missive.Core.Config.Examples.{local_host, in_repository, loaded, load_example}
use missive.Gateway.Busy.Configured.{load-apply_busy_input-Returns}
use missive.Gateway.Input.{
  BusyInputSource, BusyInput, InFlightOperation, BusyOperationState, BusyInputState,
  BusyInputOutcome, BusyInputDisposition, BusyInputAction, steering_target, is_none,
}
use missive.Gateway.Busy.{apply_busy_input, apply_queue, apply_interrupt}
use missive.Gateway.Busy.Modes.{apply_busy_input-Returns, apply_busy_input-hang}
use missive.Gateway.Busy.Accounting.{
  Accounted, IsQueue, apply_busy_input-Accounted, apply_busy_input-IsQueue,
}
use missive.Gateway.Busy.Effects.{
  is_remote_cancel, is_interrupt_queued, apply_busy_input-remote_cancel,
}

abbrev source : BusyInputSource
source = record { source_kind = lit "chat"; source_id = lit "room" }

abbrev question : BusyInput
question = record {
  input_id = lit "i2";
  source = source;
  agent_alias = lit "coder";
  context_id = none;
  task_id = none;
  metadata = [];
}

abbrev at_work : InFlightOperation
at_work = record {
  operation_id = lit "op";
  agent_alias = lit "coder";
  context_id = none;
  task_id = some (lit "t1");
  state = BusyOperationState.running;
  local_wait_active = true;
  subscription_job_id = none;
  remote_task_cancellable = true;
  steerable = false;
}

abbrev busy : BusyInputState
busy = record { active = some at_work; queued_inputs = [] }

-- Steering falls back to an interruption, since the operation cannot be steered.
abbrev steering : BusyInputConfig
steering = record default_busy_input {
  mode = BusyInputMode.steer;
  unsupported_steer_fallback = BusyInputMode.interrupt;
}

abbrev endless : BusyInputConfig
endless = record steering { unsupported_steer_fallback = BusyInputMode.steer }

abbrev interrupted : BusyInputOutcome
interrupted = record {
  requested_mode = BusyInputMode.steer;
  mode_used = BusyInputMode.interrupt;
  fallback_used = true;
  disposition = BusyInputDisposition.interrupt_queued;
  actions =
      BusyInputAction.unsupported_steer_fallback (lit "i2") BusyInputMode.interrupt
        "active operation does not accept follow-up input in its current protocol state"
      ∷ BusyInputAction.mark_active_interrupting (lit "op")
      ∷ BusyInputAction.cancel_local_wait (lit "op")
      ∷ BusyInputAction.request_remote_task_cancellation (lit "op") (lit "coder") (lit "t1")
      ∷ BusyInputAction.queue_input (lit "i2") 1
      ∷ [];
  state = record {
    active = some (record at_work { state = BusyOperationState.interrupting });
    queued_inputs = record { position = 1; input = question } ∷ [];
  };
}

steering_valid : validate_busy_input steering ≡ ok tt
unfolding validate_busy_input
steering_valid = refl

run : apply_busy_input 2 steering busy question ≡ ok interrupted
unfolding apply_busy_input apply_queue apply_interrupt
run = refl

busy-IsQueue : IsQueue steering busy
busy-IsQueue = record { numbered = tt; bounded = omega arith }

apply_busy_input-Returns_example :
    Returns (apply_busy_input 2 steering busy question)
    × ((n : ℕ)
        → apply_busy_input (suc (suc n)) steering busy question
          ≡ apply_busy_input 2 steering busy question)
apply_busy_input-Returns_example = apply_busy_input-Returns steering busy question steering_valid

apply_busy_input-hang_example :
    (apply_busy_input 7 endless busy question ≡ hang) × (validate_busy_input endless ≢ ok tt)
unfolding steering_target
apply_busy_input-hang_example =
    apply_busy_input-hang endless busy question 7 at_work refl refl refl refl

apply_busy_input-Accounted_example : Accounted steering busy question interrupted
apply_busy_input-Accounted_example =
    apply_busy_input-Accounted steering busy question 0 interrupted steering_valid run

apply_busy_input-IsQueue_example : IsQueue steering interrupted.state
apply_busy_input-IsQueue_example =
    apply_busy_input-IsQueue steering busy question 0 interrupted steering_valid busy-IsQueue run

apply_busy_input-remote_cancel_example : any is_remote_cancel interrupted.actions ≡ (
    is_interrupt_queued interrupted.disposition
    && (steering.interrupt_remote_cancel
        && at_work.remote_task_cancellable
        && not (is_none at_work.task_id)))
apply_busy_input-remote_cancel_example =
    apply_busy_input-remote_cancel steering busy question 0 at_work interrupted steering_valid refl
      run

load-apply_busy_input-Returns_example :
    (policy : BusyInputConfig) × (busy_input_config_for_source loaded (some (lit "local-file"))
      ≡ ok policy)
    × Returns (apply_busy_input 2 policy busy question)
unfolding validate_named_config_identifier str_len
load-apply_busy_input-Returns_example =
    load-apply_busy_input-Returns local_host in_repository loaded (some (lit "local-file")) busy
      question load_example refl
