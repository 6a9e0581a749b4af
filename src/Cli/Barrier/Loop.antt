-- ===== src/Cli/Barrier/Loop.antt =====
-- crates/missive-cli/src/barrier.rs: the loop of the command comes to an end, and the exit.
use missive.Common.{
  ℕ, zero, suc, ◌+◌, ◌≤◌, ◌<◌, ◌≡◌, refl, Bool, true, false, inl, inr, arith, length, Bool-cases,
  subst, ◌∙◌, ap, sym,
}
use missive.Core.Error.{Result, ok, ◌>>=◌}
use missive.Core.Error.Laws.{>>=-eq-ok}
use missive.Cli.Barrier.Refresh.{BarrierOperation}
use missive.Cli.Barrier.Settled.{refresh_members-reached}
use missive.Cli.Barrier.Polling.{
  Members, World, BarrierDecision, BarrierOutput, evaluate_barrier, is_proceed,
  finalize_barrier_output, decision_status, barrier_loop, refresh_members,
}

evaluate_barrier-timeout :
    (operation : BarrierOperation) (elapsed : ℕ) (members : Members)
    → operation.timeout ≤ elapsed
    → is_proceed (evaluate_barrier operation elapsed members) ≡ false
unfolding evaluate_barrier
evaluate_barrier-timeout operation elapsed members h = ground arith

finalize-ok :
    (operation : BarrierOperation) (members : Members) (attempts : ℕ) (d : BarrierDecision)
    → is_proceed d ≡ false
    → (output : BarrierOutput) × (finalize_barrier_output operation members attempts d ≡ ok output)
      × (output.attempts ≡ attempts)
unfolding finalize_barrier_output decision_status
finalize-ok operation members attempts BarrierDecision.proceed h = absurd cc
finalize-ok operation members attempts BarrierDecision.succeeded h = (_, refl, refl)
finalize-ok operation members attempts BarrierDecision.failed h = (_, refl, refl)
finalize-ok operation members attempts BarrierDecision.cancelled h = (_, refl, refl)
finalize-ok operation members attempts BarrierDecision.timeout h = (_, refl, refl)

choose-true {ℓ} : {A : Type ℓ} (b : Bool) (x y : A) → b ≡ true → elim b [ true ↦ x | false ↦ y ] ≡ x
choose-true true x y h = refl
choose-true false x y h = cc

choose-false {ℓ} :
    {A : Type ℓ} (b : Bool) (x y : A) → b ≡ false → elim b [ true ↦ x | false ↦ y ] ≡ y
choose-false true x y h = cc
choose-false false x y h = refl

EndsBy : Result (Members × BarrierOutput) → ℕ → Type 0
EndsBy r last = (final : Members × BarrierOutput) × (r ≡ ok final) × (final.1.attempts ≤ last)

module _ (operation : BarrierOperation) (world : World) where
  loop-going :
      (n round : ℕ) (members : Members)
      → let refreshed = refresh_members operation world round members in
        is_proceed (evaluate_barrier operation (world.elapsed round) refreshed) ≡ true
        → barrier_loop (suc n) operation world round members
          ≡ barrier_loop n operation world (round + 1) refreshed
  unfolding barrier_loop
  loop-going n round members going =
      choose-true
        (is_proceed (
          evaluate_barrier operation (world.elapsed round)
            (refresh_members operation world round members)))
        _ _ going

  loop_ends :
      (n round last : ℕ) (members : Members)
      → let refreshed = refresh_members operation world round members in
        let d = evaluate_barrier operation (world.elapsed round) refreshed in
        round + 1 ≤ last
        → ((is_proceed d ≡ true)
            → EndsBy (barrier_loop n operation world (round + 1) refreshed) last)
        → EndsBy (barrier_loop (suc n) operation world round members) last
  unfolding barrier_loop EndsBy
  loop_ends n round last members h more =
      let refreshed = refresh_members operation world round members in
      let d = evaluate_barrier operation (world.elapsed round) refreshed in
      elim (Bool-cases (is_proceed d)) [
        | inr done ↦
            let (output, made, count) = finalize-ok operation refreshed (round + 1) d done in
            (
              (refreshed, output),
              choose-false (is_proceed d) _ _ done
                  ∙ ap (λ r. r >>= λ output. ok (refreshed, output)) made,
              omega arith,
            )
        | inl going ↦
            let (final, made, count) = more going in
            (final, loop-going n round members going ∙ made, count)
      ]

  -- If the timeout has passed by the time of some round for which there is fuel, the loop ends with
  -- an output in that round or before, whatever the refreshes find.
  pub barrier_loop-ok :
      (n k round : ℕ) (members : Members)
      → k < n
      → operation.timeout ≤ world.elapsed (round + k)
      → (final : Members × BarrierOutput) × (barrier_loop n operation world round members
          ≡ ok final)
        × (final.1.attempts ≤ round + k + 1)
  unfolding EndsBy
  barrier_loop-ok zero k round members h late = absurd (omega arith)
  barrier_loop-ok (suc n) zero round members h late =
      loop_ends n round (round + 0 + 1) members (omega arith) (λ going.
        let stops =
          evaluate_barrier-timeout operation (world.elapsed round)
            (refresh_members operation world round members)
            (subst (λ t. operation.timeout ≤ world.elapsed t) (omega arith) late) in
        absurd cc)
  barrier_loop-ok (suc n) (suc k) round members h late =
      loop_ends n round (round + suc k + 1) members (omega arith) (λ going.
        let (final, made, count) =
          barrier_loop-ok n k (round + 1) (refresh_members operation world round members)
            (omega arith) (subst (λ t. operation.timeout ≤ world.elapsed t) (omega arith) late) in
        (final, made, omega arith))

-- How the loop got to its result: by the decision of its last round.
unfoldable pub EndedBy : BarrierOperation → World → ℕ → Members → BarrierOutput → Type 0
EndedBy operation world size final output =
    (r : ℕ) × (is_proceed (evaluate_barrier operation (world.elapsed r) final) ≡ false)
    × (finalize_barrier_output operation final (r + 1)
          (evaluate_barrier operation (world.elapsed r) final)
        ≡ ok output)
    × (length final ≡ size)

pub barrier_loop-EndedBy :
    (operation : BarrierOperation) (world : World) (n round : ℕ) (members final : Members)
    (output : BarrierOutput)
    → barrier_loop n operation world round members ≡ ok (final, output)
    → EndedBy operation world (length members) final output
unfolding barrier_loop EndedBy
barrier_loop-EndedBy operation world zero round members final output h = cc
barrier_loop-EndedBy operation world (suc n) round members final output h =
    let refreshed = refresh_members operation world round members in
    let (same, _, _) = refresh_members-reached operation world round members in
    let d = evaluate_barrier operation (world.elapsed round) refreshed in
    elim (Bool-cases (is_proceed d)) [
      | inl going ↦
          let (r, done, made, size) =
            barrier_loop-EndedBy operation world n (round + 1) refreshed final output
              (sym (loop-going operation world n round members going) ∙ h) in
          (r, done, made, size ∙ same)
      | inr done ↦
          let (out, made, e) =
            >>=-eq-ok (finalize_barrier_output operation refreshed (round + 1) d) _
              (sym (choose-false (is_proceed d) _ _ done) ∙ h) in
          let ends : refreshed ≡ final = cc in
          let outs : out ≡ output = cc in
          (
            round,
            subst (λ ms. is_proceed (evaluate_barrier operation (world.elapsed round) ms) ≡ false)
                ends done,
            subst
                (λ ms.
                  finalize_barrier_output operation ms (round + 1)
                    (evaluate_barrier operation (world.elapsed round) ms)
                  ≡ ok output)
                ends (made ∙ ap ok outs),
            ap length (sym ends) ∙ same,
          )
    ]
