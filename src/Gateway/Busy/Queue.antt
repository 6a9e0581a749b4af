-- ===== src/Gateway/Busy/Queue.antt =====
-- The queue of crates/missive-gateway/src/busy.rs: `push_queue`, and what `apply_queue` and
-- `apply_interrupt` come to once the index behind the push is seen to be in bounds.
use missive.Common.{
  ◌+◌, ◌-◌, ◌≡◌, refl, Bool, some, List, [], ◌∷◌, ◌++◌, leb, if◌then◌else◌, length, get_elem?,
  arith, Bool-cases, inl, inr,
}
use missive.Core.Error.{Result, ok, err, orchestration_error}
use missive.Core.Config.{BusyInputMode, BusyInputConfig}
use missive.Gateway.Input.{
  BusyInput, BusyInputState, BusyInputOutcome, BusyInputAction, BusyInputDisposition,
  BusyOperationState, InFlightOperation,
}
use missive.Gateway.Busy.{queued_id, apply_queue, apply_interrupt, interrupt_actions}

-- The state with the input behind the others.
abbrev pub enqueued : BusyInputState → BusyInput → BusyInputState
enqueued s input = record s {
  queued_inputs =
      s.queued_inputs ++ record { position = length s.queued_inputs + 1; input = input } ∷ [];
}

abbrev pub is_full : BusyInputConfig → BusyInputState → Bool
is_full policy s = leb policy.max_queue_depth (length s.queued_inputs)

abbrev pub marked : BusyInputState → InFlightOperation → BusyInputState
marked s op = record s { active = some (record op { state = BusyOperationState.interrupting }) }

get_elem?-last {ℓ} :
    {A : Type ℓ} (xs : List A) (x : A) → get_elem? (xs ++ x ∷ []) (length xs) ≡ some x
get_elem?-last [] x = refl
get_elem?-last (y ∷ xs) x = get_elem?-last xs x

queued_id-enqueued :
    (s : BusyInputState) (input : BusyInput)
    → queued_id (enqueued s input) (length s.queued_inputs + 1) ≡ ok input.input_id
unfolding queued_id
queued_id-enqueued s input =
    let e : length s.queued_inputs + 1 - 1 ≡ length s.queued_inputs = omega arith in
    rw e (
      rw (
        get_elem?-last s.queued_inputs
          (record { position = length s.queued_inputs + 1; input = input })))

abbrev pub queue_full : Result BusyInputOutcome
queue_full = err (orchestration_error "busy input queue for source {}:{} is full at {} item(s)")

-- What queueing and interrupting give, behind the actions already taken.
abbrev pub queued_outcome :
    BusyInputConfig
    → BusyInputState
    → BusyInput
    → BusyInputMode
    → Bool
    → List BusyInputAction
    → Result BusyInputOutcome
queued_outcome policy s input requested fallback_used actions =
    if is_full policy s
    then queue_full
    else ok (record {
      requested_mode = requested;
      mode_used = BusyInputMode.queue;
      fallback_used = fallback_used;
      disposition = BusyInputDisposition.queued;
      actions =
          actions ++ BusyInputAction.queue_input input.input_id (length s.queued_inputs + 1) ∷ [];
      state = enqueued s input;
    })

abbrev pub interrupted_outcome :
    BusyInputConfig
    → BusyInputState
    → InFlightOperation
    → BusyInput
    → BusyInputMode
    → Bool
    → List BusyInputAction
    → Result BusyInputOutcome
interrupted_outcome policy s op input requested fallback_used actions =
    if is_full policy s
    then queue_full
    else ok (record {
      requested_mode = requested;
      mode_used = BusyInputMode.interrupt;
      fallback_used = fallback_used;
      disposition = BusyInputDisposition.interrupt_queued;
      actions =
          (actions ++ interrupt_actions policy op)
          ++ BusyInputAction.queue_input input.input_id (length s.queued_inputs + 1) ∷ [];
      state = enqueued (marked s op) input;
    })

pub apply_queue_lem :
    (policy : BusyInputConfig) (s : BusyInputState) (input : BusyInput) (requested : BusyInputMode)
    (fallback_used : Bool) (actions : List BusyInputAction)
    → apply_queue policy s input requested fallback_used actions
      ≡ queued_outcome policy s input requested fallback_used actions
unfolding apply_queue
apply_queue_lem policy s input requested fallback_used actions =
    elim (Bool-cases (is_full policy s)) [
      | inl full ↦ rw full
      | inr room ↦ rw room (rw (queued_id-enqueued s input))
    ]

pub apply_interrupt_lem :
    (policy : BusyInputConfig) (s : BusyInputState) (op : InFlightOperation) (input : BusyInput)
    (requested : BusyInputMode) (fallback_used : Bool) (actions : List BusyInputAction)
    → s.active ≡ some op
    → apply_interrupt policy s input requested fallback_used actions
      ≡ interrupted_outcome policy s op input requested fallback_used actions
unfolding apply_interrupt
apply_interrupt_lem policy s op input requested fallback_used actions busy =
    elim (Bool-cases (is_full policy s)) [
      | inl full ↦ rw (busy, full)
      | inr room ↦ rw (busy, room) (rw (queued_id-enqueued (marked s op) input))
    ]
