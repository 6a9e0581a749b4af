-- ===== src/Gateway/Busy/Effects.antt =====
-- What `apply_busy_input` of crates/missive-gateway/src/busy.rs refuses, when it asks for the
-- cancellation of the remote task, and when it falls back to another mode.
use missive.Common.{
  ℕ, suc, ◌+◌, ◌≡◌, refl, ◌≢◌, Bool, true, false, not, ◌&&◌, ◌||◌, none, some, List, [], ◌∷◌, ◌++◌,
  if◌then◌else◌, length, any, arith, Option-cases, inl, inr, ◌⊎◌, ◌∙◌, sym, ◌↔◌,
}
use missive.Core.Error.{ok, err, MissiveError}
use missive.Core.Config.{BusyInputMode, BusyInputConfig, validate_busy_input}
use missive.Gateway.Input.{
  BusyInput, BusyInputState, BusyInputOutcome, BusyInputAction, BusyInputDisposition,
  InFlightOperation, steering_target, is_none,
}
use missive.Gateway.Busy.{apply_busy_input, interrupt_actions}
use missive.Gateway.Busy.Queue.{is_full, queue_full}
use missive.Common.Str.{Str}
use missive.Gateway.Busy.Modes.{
  fallback_action, decided, apply_busy_input-decided, validate-not_steer,
}

abbrev pub is_remote_cancel : BusyInputAction → Bool
is_remote_cancel (BusyInputAction.request_remote_task_cancellation o a t) = true
is_remote_cancel _ = false

abbrev pub is_interrupt_queued : BusyInputDisposition → Bool
is_interrupt_queued BusyInputDisposition.interrupt_queued = true
is_interrupt_queued _ = false

-- Why an input is refused: it would have to be queued, and the queue is full.
abbrev pub Refused : BusyInputConfig → BusyInputState → Type 0
Refused policy s =
    (op : InFlightOperation) × (s.active ≡ some op)
    × (is_full policy s ≡ true)
    × ((policy.mode ≢ BusyInputMode.steer) ⊎ (steering_target op ≡ none))

module _ (policy : BusyInputConfig) (s : BusyInputState) (input : BusyInput) where
  decided-Refused :
      policy.unsupported_steer_fallback ≢ BusyInputMode.steer
      → ((decided policy s input ≡ queue_full) ↔ Refused policy s)
        × ((e : MissiveError)
            → decided policy s input ≡ err e
            → decided policy s input ≡ queue_full)
  unfolding decided
  decided-Refused fallback = elim (Option-cases s.active) [
    | inl idle ↦ (
      ((λ h. absurd (ground arith)), (λ r. absurd (ground (arith, r)))),
      λ e h. absurd (ground arith),
    )
    | inr (op, busy) ↦ (
      ((λ h. (op, busy, ground arith, ground arith)), (λ r. ground (arith, r))),
      λ e h. ground arith,
    )
  ]

  -- With a validated policy and two rounds or more, an input is refused exactly when it would have
  -- to be queued (there is an active operation, and the mode is not steer or there is no steering
  -- target) and the queue is full. No other error comes back.
  pub apply_busy_input-Refused :
      (n : ℕ)
      → validate_busy_input policy ≡ ok tt
      → let r = apply_busy_input (suc (suc n)) policy s input in
        ((r ≡ queue_full) ↔ Refused policy s) × ((e : MissiveError) → r ≡ err e → r ≡ queue_full)
  apply_busy_input-Refused n valid =
      rw (apply_busy_input-decided policy s input n valid)
        (decided-Refused (validate-not_steer policy valid))

  any-append_cancel :
      (xs ys : List BusyInputAction)
      → any is_remote_cancel (xs ++ ys) ≡ (any is_remote_cancel xs || any is_remote_cancel ys)
  any-append_cancel [] ys = refl
  any-append_cancel (x ∷ xs) ys = ground (arith, any-append_cancel xs ys)

  interrupt_actions-cancel :
      (op : InFlightOperation)
      → any is_remote_cancel (interrupt_actions policy op)
        ≡ (policy.interrupt_remote_cancel && op.remote_task_cancellable && not (is_none op.task_id))
  unfolding interrupt_actions
  interrupt_actions-cancel op = ground arith

  interrupted-cancel :
      (op : InFlightOperation) (first : List BusyInputAction) (id : Str) (k : ℕ)
      → any is_remote_cancel first ≡ false
      → any is_remote_cancel
          ((first ++ interrupt_actions policy op) ++ BusyInputAction.queue_input id k ∷ [])
        ≡ (policy.interrupt_remote_cancel && op.remote_task_cancellable && not (is_none op.task_id))
  interrupted-cancel op first id k h = ground (
    arith,
    any-append_cancel (first ++ interrupt_actions policy op)
        (BusyInputAction.queue_input id k ∷ []),
    any-append_cancel first (interrupt_actions policy op),
    interrupt_actions-cancel op,
  )

  decided-remote_cancel :
      (op : InFlightOperation) (out : BusyInputOutcome)
      → s.active ≡ some op
      → decided policy s input ≡ ok out
      → any is_remote_cancel out.actions ≡ (
          is_interrupt_queued out.disposition
          && (policy.interrupt_remote_cancel
              && op.remote_task_cancellable
              && not (is_none op.task_id)))
  unfolding decided
  decided-remote_cancel op out busy h =
      let first = fallback_action policy op input ∷ [] in
      let k = length s.queued_inputs + 1 in
      ground (
        arith,
        interrupted-cancel op [] input.input_id k refl,
        interrupted-cancel op first input.input_id k refl,
      )

  -- With a validated policy, two rounds or more and an active operation, an outcome asks for the
  -- cancellation of the remote task exactly when the operation is interrupted, the policy allows
  -- it, and the operation has a task that can be cancelled.
  pub apply_busy_input-remote_cancel :
      (n : ℕ) (op : InFlightOperation) (out : BusyInputOutcome)
      → validate_busy_input policy ≡ ok tt
      → s.active ≡ some op
      → apply_busy_input (suc (suc n)) policy s input ≡ ok out
      → any is_remote_cancel out.actions ≡ (
          is_interrupt_queued out.disposition
          && (policy.interrupt_remote_cancel
              && op.remote_task_cancellable
              && not (is_none op.task_id)))
  apply_busy_input-remote_cancel n op out valid busy h =
      decided-remote_cancel op out busy (sym (apply_busy_input-decided policy s input n valid) ∙ h)

  decided-fallback :
      (op : InFlightOperation) (out : BusyInputOutcome)
      → s.active ≡ some op
      → decided policy s input ≡ ok out
      → (out.requested_mode ≡ policy.mode)
        × ((out.fallback_used ≡ true)
            ↔ ((policy.mode ≡ BusyInputMode.steer) × (steering_target op ≡ none)))
        × (out.mode_used
            ≡ (if out.fallback_used then policy.unsupported_steer_fallback else policy.mode))
  unfolding decided
  decided-fallback op out busy h =
      (ground arith, ((λ e. ground arith), λ e. ground arith), ground arith)

  -- With a validated policy, two rounds or more and an active operation, an outcome used the
  -- fallback exactly when steering was asked for and the operation has no steering target. The mode
  -- that handled the input is then the fallback of the policy, and the mode that was asked for
  -- otherwise.
  pub apply_busy_input-fallback :
      (n : ℕ) (op : InFlightOperation) (out : BusyInputOutcome)
      → validate_busy_input policy ≡ ok tt
      → s.active ≡ some op
      → apply_busy_input (suc (suc n)) policy s input ≡ ok out
      → (out.requested_mode ≡ policy.mode)
        × ((out.fallback_used ≡ true)
            ↔ ((policy.mode ≡ BusyInputMode.steer) × (steering_target op ≡ none)))
        × (out.mode_used
            ≡ (if out.fallback_used then policy.unsupported_steer_fallback else policy.mode))
  apply_busy_input-fallback n op out valid busy h =
      decided-fallback op out busy (sym (apply_busy_input-decided policy s input n valid) ∙ h)
