-- ===== src/Gateway/Busy/Modes.antt =====
-- Which of the modes handles an input: `apply_mode` and `apply_steer` of
-- crates/missive-gateway/src/busy.rs, and when their recursion ends.
use missive.Common.{
  ℕ, zero, suc, ◌≡◌, refl, ◌≢◌, Bool, true, false, none, some, List, [], ◌∷◌, ◌++◌, if◌then◌else◌,
  arith, Option-cases, inl, inr, String, ◌∙◌, sym,
}
use missive.Core.Error.{Result, ok, hang, Returns}
use missive.Core.Config.{BusyInputMode, BusyInputConfig, validate_busy_input}
use missive.Gateway.Input.{
  BusyInput, BusyInputState, BusyInputOutcome, BusyInputAction, BusyInputDisposition,
  InFlightOperation, steering_target,
}
use missive.Gateway.Busy.{apply_busy_input, apply_mode}
use missive.Gateway.Busy.Queue.{
  queued_outcome, interrupted_outcome, apply_queue_lem, apply_interrupt_lem,
}

abbrev pub fallback_action : BusyInputConfig → InFlightOperation → BusyInput → BusyInputAction
fallback_action policy op input =
    let reason : String =
      if op.steerable
      then "active operation is marked steerable but has no context_id or task_id"
      else "active operation does not accept follow-up input in its current protocol state" in
    BusyInputAction.unsupported_steer_fallback input.input_id policy.unsupported_steer_fallback
      reason

-- The policy as a table: by the active operation, the mode, the steering target and the fallback.
unfoldable pub decided : BusyInputConfig → BusyInputState → BusyInput → Result BusyInputOutcome
decided policy s input = elim s.active [
  | none ↦ ok (record {
    requested_mode = policy.mode;
    mode_used = policy.mode;
    fallback_used = false;
    disposition = BusyInputDisposition.start_now;
    actions = BusyInputAction.start_input input.input_id ∷ [];
    state = s;
  })
  | some op ↦ elim policy.mode [
    | BusyInputMode.queue ↦ queued_outcome policy s input policy.mode false []
    | BusyInputMode.interrupt ↦ interrupted_outcome policy s op input policy.mode false []
    | BusyInputMode.steer ↦ elim (steering_target op) [
      | some target ↦ ok (record {
        requested_mode = policy.mode;
        mode_used = BusyInputMode.steer;
        fallback_used = false;
        disposition = BusyInputDisposition.steered;
        actions =
            BusyInputAction.append_follow_up op.operation_id input.input_id target.context_id
              target.task_id
            ∷ [];
        state = s;
      })
      | none ↦
          let first = fallback_action policy op input ∷ [] in
          elim policy.unsupported_steer_fallback [
            | BusyInputMode.queue ↦ queued_outcome policy s input policy.mode true first
            | BusyInputMode.interrupt ↦ interrupted_outcome policy s op input policy.mode true first
            | BusyInputMode.steer ↦ hang
          ]
    ]
  ]
]

pub validate-not_steer :
    (policy : BusyInputConfig)
    → validate_busy_input policy ≡ ok tt
    → policy.unsupported_steer_fallback ≢ BusyInputMode.steer
unfolding validate_busy_input
validate-not_steer policy h = ground arith

module _ (policy : BusyInputConfig) (s : BusyInputState) (input : BusyInput) where
  -- With a validated policy, two rounds of `apply_mode` or more give what the table says.
  pub apply_busy_input-decided :
      (n : ℕ)
      → validate_busy_input policy ≡ ok tt
      → apply_busy_input (suc (suc n)) policy s input ≡ decided policy s input
  unfolding apply_busy_input decided
  apply_busy_input-decided n valid = elim (Option-cases s.active) [
    | inl idle ↦ ground arith
    | inr (op, busy) ↦
        let first = fallback_action policy op input ∷ [] in
        ground (
          arith,
          validate-not_steer policy valid,
          apply_queue_lem policy s input policy.mode false [],
          apply_interrupt_lem policy s op input policy.mode false [] busy,
          apply_queue_lem policy s input policy.mode true first,
          apply_interrupt_lem policy s op input policy.mode true first busy,
        )
  ]

  decided-Returns :
      policy.unsupported_steer_fallback ≢ BusyInputMode.steer → Returns (decided policy s input)
  unfolding decided
  decided-Returns h = elim (Option-cases s.active) [
    | inl idle ↦ rw idle tt
    | inr (op, busy) ↦ ground arith
  ]

  -- If the policy passes `BusyInputConfig::validate`, `apply_busy_input` comes back with an outcome
  -- or an error value, with no failed `expect` or index: two rounds of `apply_mode` are enough.
  -- Any larger number of rounds gives the same result.
  pub apply_busy_input-Returns :
      validate_busy_input policy ≡ ok tt
      → Returns (apply_busy_input 2 policy s input)
        × ((n : ℕ)
            → apply_busy_input (suc (suc n)) policy s input ≡ apply_busy_input 2 policy s input)
  apply_busy_input-Returns valid =
      let two = apply_busy_input-decided 0 valid in
      (
        rw two (decided-Returns (validate-not_steer policy valid)),
        λ n. apply_busy_input-decided n valid ∙ sym two,
      )

  apply_mode-hang :
      (n : ℕ) (op : InFlightOperation) (fallback_used : Bool) (actions : List BusyInputAction)
      → s.active ≡ some op
      → steering_target op ≡ none
      → policy.unsupported_steer_fallback ≡ BusyInputMode.steer
      → apply_mode n policy s input BusyInputMode.steer BusyInputMode.steer fallback_used actions
        ≡ hang
  unfolding apply_mode
  apply_mode-hang zero op fallback_used actions busy closed loop = refl
  apply_mode-hang (suc n) op fallback_used actions busy closed loop = ground (
    arith,
    apply_mode-hang n op true (actions ++ fallback_action policy op input ∷ []) busy closed loop,
  )

  -- A policy that falls back from steer to steer, which `validate` refuses, never comes to an end
  -- in steer mode while the active operation cannot be steered: every number of rounds runs out.
  pub apply_busy_input-hang :
      (n : ℕ) (op : InFlightOperation)
      → policy.mode ≡ BusyInputMode.steer
      → policy.unsupported_steer_fallback ≡ BusyInputMode.steer
      → s.active ≡ some op
      → steering_target op ≡ none
      → (apply_busy_input n policy s input ≡ hang) × (validate_busy_input policy ≢ ok tt)
  unfolding apply_busy_input validate_busy_input
  apply_busy_input-hang n op mode loop busy closed =
      (simp mode (apply_mode-hang n op false [] busy closed loop), ground arith)
