-- ===== src/Gateway/Busy/Accounting.antt =====
-- What `apply_busy_input` of crates/missive-gateway/src/busy.rs does to the queue, to the active
-- operation and to the list of actions, over every policy that passes validation.
use missive.Common.{
  ℕ, suc, ◌+◌, ◌≤◌, ◌≡◌, ◌≢◌, true, false, none, some, List, [], ◌∷◌, ◌++◌, length, arith,
  Option-cases, inl, inr, ◌⊎◌, length-append, ◌∙◌, sym, Bool, Bool-cases, refl,
}
use missive.Core.Error.{ok}
use missive.Core.Config.{BusyInputMode, BusyInputConfig, validate_busy_input}
use missive.Gateway.Input.{
  BusyInput, BusyInputState, BusyInputOutcome, BusyInputDisposition, BusyInputAction,
  InFlightOperation, QueuedBusyInput, steering_target,
}
use missive.Gateway.Busy.{apply_busy_input, interrupt_actions}
use missive.Gateway.Busy.Queue.{is_full, enqueued, marked, queued_outcome, interrupted_outcome}
use missive.Gateway.Busy.Modes.{decided, fallback_action, apply_busy_input-decided}

BusyInputMode-cases :
    (m : BusyInputMode)
    → (m ≡ BusyInputMode.queue) ⊎ ((m ≡ BusyInputMode.interrupt) ⊎ (m ≡ BusyInputMode.steer))
BusyInputMode-cases BusyInputMode.queue = inl refl
BusyInputMode-cases BusyInputMode.interrupt = inr (inl refl)
BusyInputMode-cases BusyInputMode.steer = inr (inr refl)

-- The queued inputs carry the positions n, n + 1, and so on.
abbrev pub Numbered : ℕ → List QueuedBusyInput → Type 0
Numbered n [] = Unit {0}
Numbered n (q ∷ qs) = (q.position ≡ n) × Numbered (suc n) qs

pub record IsQueue (policy : BusyInputConfig) (s : BusyInputState) : Type 0 where
  pub numbered : Numbered 1 s.queued_inputs
  pub bounded : length s.queued_inputs ≤ policy.max_queue_depth

Numbered-append :
    (n : ℕ) (qs : List QueuedBusyInput) (q : QueuedBusyInput)
    → Numbered n qs
    → q.position ≡ n + length qs
    → Numbered n (qs ++ q ∷ [])
Numbered-append n [] q h e = (omega arith, tt)
Numbered-append n (x ∷ qs) q h e = (h.0, Numbered-append (suc n) qs q h.1 (omega arith))

enqueued-IsQueue :
    (policy : BusyInputConfig) (s : BusyInputState) (input : BusyInput)
    → is_full policy s ≡ false
    → IsQueue policy s
    → IsQueue policy (enqueued s input)
enqueued-IsQueue policy s input room v = record {
  numbered = Numbered-append 1 s.queued_inputs _ v.numbered (omega arith);
  bounded = ground (
    arith,
    length-append s.queued_inputs
        (record { position = length s.queued_inputs + 1; input = input } ∷ []),
  );
}

-- The last action queues the input under the next position.
abbrev pub IsBehind : BusyInput → BusyInputState → BusyInputOutcome → Type 0
IsBehind input s out =
    (earlier : List BusyInputAction) × out.actions
      ≡ earlier ++ BusyInputAction.queue_input input.input_id (length s.queued_inputs + 1) ∷ []

-- The input is appended to the active operation, which can take it.
abbrev pub IsSteered : InFlightOperation → BusyInputState → BusyInput → BusyInputOutcome → Type 0
IsSteered op s input out =
    (out.disposition ≡ BusyInputDisposition.steered)
    × (op.steerable ≡ true)
    × ((op.context_id ≢ none) ⊎ (op.task_id ≢ none))
    × (out.actions
        ≡ BusyInputAction.append_follow_up op.operation_id input.input_id op.context_id op.task_id
          ∷ [])
    × (out.state ≡ s)

-- What became of an input that came to an active operation.
abbrev pub TakenBy :
    InFlightOperation → BusyInputConfig → BusyInputState → BusyInput → BusyInputOutcome → Type 0
TakenBy op policy s input out =
    IsSteered op s input out
    ⊎ (((out.disposition ≡ BusyInputDisposition.queued)
          × (is_full policy s ≡ false)
          × IsBehind input s out
          × (out.state ≡ enqueued s input))
        ⊎ ((out.disposition ≡ BusyInputDisposition.interrupt_queued)
            × (is_full policy s ≡ false)
            × IsBehind input s out
            × (out.state ≡ enqueued (marked s op) input)))

-- Where an input went, and the action that takes it there: started, appended to the active
-- operation, or behind the queue.
abbrev pub Accounted : BusyInputConfig → BusyInputState → BusyInput → BusyInputOutcome → Type 0
Accounted policy s input out =
    ((s.active ≡ none)
      × (out.disposition ≡ BusyInputDisposition.start_now)
      × (out.actions ≡ BusyInputAction.start_input input.input_id ∷ [])
      × (out.state ≡ s))
    ⊎ ((op : InFlightOperation) × (s.active ≡ some op) × TakenBy op policy s input out)

module _ (policy : BusyInputConfig) (s : BusyInputState) (input : BusyInput) where
  module _ (op : InFlightOperation) (out : BusyInputOutcome) (used : Bool)
      (actions : List BusyInputAction) where
    queued-TakenBy :
        queued_outcome policy s input policy.mode used actions ≡ ok out
        → TakenBy op policy s input out
    queued-TakenBy h = elim (Bool-cases (is_full policy s)) [
      | inl full ↦ absurd (ground arith)
      | inr room ↦ inr (inl (ground arith, room, (actions, ground arith), ground arith))
    ]

    interrupted-TakenBy :
        interrupted_outcome policy s op input policy.mode used actions ≡ ok out
        → TakenBy op policy s input out
    interrupted-TakenBy h = elim (Bool-cases (is_full policy s)) [
      | inl full ↦ absurd (ground arith)
      | inr room ↦ inr (
          inr (
            ground arith,
            room,
            (actions ++ interrupt_actions policy op, ground arith),
            ground arith,
          ))
    ]

  decided-cases :
      (op : InFlightOperation) (out : BusyInputOutcome)
      → s.active ≡ some op
      → decided policy s input ≡ ok out
      → IsSteered op s input out
        ⊎ ((used : Bool) × (actions : List BusyInputAction) × ((queued_outcome policy s input
                  policy.mode used actions
                ≡ ok out)
              ⊎ (interrupted_outcome policy s op input policy.mode used actions ≡ ok out)))
  unfolding decided steering_target
  decided-cases op out busy h =
      let first = fallback_action policy op input ∷ [] in
      elim (BusyInputMode-cases policy.mode) [
        | inl queue ↦ inr (false, [], inl (ground arith))
        | inr (inl interrupt) ↦ inr (false, [], inr (ground arith))
        | inr (inr steer) ↦ elim (Option-cases (steering_target op)) [
          | inr (target, reachable) ↦ inl (ground (arith, Option-cases op.context_id))
          | inl closed ↦ elim (BusyInputMode-cases policy.unsupported_steer_fallback) [
            | inl queue ↦ inr (true, first, inl (ground arith))
            | inr (inl interrupt) ↦ inr (true, first, inr (ground arith))
            | inr (inr loop) ↦ absurd (ground arith)
          ]
        ]
      ]

  decided-Accounted :
      (out : BusyInputOutcome) → decided policy s input ≡ ok out → Accounted policy s input out
  decided-Accounted out h = elim (Option-cases s.active) [
    | inl idle ↦ inl (unfold decided in ground arith)
    | inr (op, busy) ↦ inr (
      op,
      busy,
      elim (decided-cases op out busy h) [
        | inl steered ↦ inl steered
        | inr (used, actions, inl queued) ↦ queued-TakenBy op out used actions queued
        | inr (used, actions, inr stopped) ↦ interrupted-TakenBy op out used actions stopped
      ],
    )
  ]

  -- With a validated policy and two rounds or more, an outcome does not lose the input. If there is
  -- no active operation, the one action starts the input. Otherwise the one action appends it to the
  -- active operation, which is steerable and has a context or a task; or the last action queues it
  -- under the position behind the queue, which was not full, and the state holds it there, the
  -- active operation being marked as interrupting if the input interrupts and only then. The state
  -- changes in no other way.
  pub apply_busy_input-Accounted :
      (n : ℕ) (out : BusyInputOutcome)
      → validate_busy_input policy ≡ ok tt
      → apply_busy_input (suc (suc n)) policy s input ≡ ok out
      → Accounted policy s input out
  apply_busy_input-Accounted n out valid h =
      decided-Accounted out (sym (apply_busy_input-decided policy s input n valid) ∙ h)

  -- With a validated policy and two rounds or more, an outcome keeps the queue in order: if the
  -- positions ran from 1 with no gap and the depth was within `max_queue_depth`, they still do and
  -- it still is.
  pub apply_busy_input-IsQueue :
      (n : ℕ) (out : BusyInputOutcome)
      → validate_busy_input policy ≡ ok tt
      → IsQueue policy s
      → apply_busy_input (suc (suc n)) policy s input ≡ ok out
      → IsQueue policy out.state
  apply_busy_input-IsQueue n out valid v h = elim (apply_busy_input-Accounted n out valid h) [
    | inl (idle, d, acts, e) ↦ rw e v
    | inr (op, busy, inl (d, able, target, acts, e)) ↦ rw e v
    | inr (op, busy, inr (inl (d, room, last, e))) ↦ rw e (enqueued-IsQueue policy s input room v)
    | inr (op, busy, inr (inr (d, room, last, e))) ↦ rw e (
        enqueued-IsQueue policy (marked s op) input room
          (record { numbered = v.numbered; bounded = v.bounded }))
  ]
