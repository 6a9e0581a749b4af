-- ===== src/Cli/Barrier/Exit.antt =====
-- crates/missive-cli/src/barrier.rs: what the exit of the command tells its caller.
use missive.Common.{ℕ, ◌+◌, ◌≤◌, ◌<◌, ◌≡◌, refl, arith, length, subst}
use missive.Core.Error.{Result, ok, err, MissiveError, MissiveExitCode, error_exit_code}
use missive.Core.Error.Laws.{ok-injective}
use missive.Cli.Barrier.Refresh.{BarrierOperation}
use missive.Cli.Barrier.Decision.{IsRight, evaluate_barrier-IsRight}
use missive.Common.Str.{str_eq}
use missive.Cli.Barrier.Loop.{EndedBy, barrier_loop-EndedBy}
use missive.Cli.Barrier.Polling.{
  Members, World, BarrierDecision, BarrierOutput, reached_count, failure_count, cancellation_count,
  pending_count, finalize_barrier_output, decision_status, barrier_exit, barrier_loop,
}

-- What the exit of the command tells its caller.
pub data TellsRight (operation : BarrierOperation) (members : Members)
    : Result (Unit {0}) → Type 0 where
  reached : operation.required ≤ reached_count members → TellsRight operation members (ok tt)
  timed_out :
      (e : MissiveError)
      → error_exit_code e ≡ MissiveExitCode.task_timeout
      → reached_count members < operation.required
      → operation.required ≤ reached_count members + pending_count members
      → TellsRight operation members (err e)
  was_cancelled :
      (e : MissiveError)
      → error_exit_code e ≡ MissiveExitCode.task_cancelled
      → reached_count members < operation.required
      → 0 < cancellation_count members
      → failure_count members ≡ 0
      → TellsRight operation members (err e)
  has_failed :
      (e : MissiveError)
      → error_exit_code e ≡ MissiveExitCode.task_failed
      → reached_count members < operation.required
      → 0 < failure_count members
      → TellsRight operation members (err e)

exit-TellsRight :
    (operation : BarrierOperation) (elapsed attempts : ℕ) (members : Members) (d : BarrierDecision)
    (output : BarrierOutput)
    → finalize_barrier_output operation members attempts d ≡ ok output
    → IsRight operation elapsed members d
    → TellsRight operation members (barrier_exit output)
unfolding finalize_barrier_output decision_status barrier_exit IsRight str_eq error_exit_code
exit-TellsRight operation elapsed attempts members BarrierDecision.proceed output h right = cc
exit-TellsRight operation elapsed attempts members BarrierDecision.succeeded output h right =
    subst (λ o. TellsRight operation members (barrier_exit o)) (ok-injective h) (reached right)
exit-TellsRight operation elapsed attempts members BarrierDecision.failed output h right =
    subst (λ o. TellsRight operation members (barrier_exit o)) (ok-injective h)
      (has_failed _ refl right.0 right.1)
exit-TellsRight operation elapsed attempts members BarrierDecision.cancelled output h right =
    subst (λ o. TellsRight operation members (barrier_exit o)) (ok-injective h)
      (was_cancelled _ refl right.0 right.1 right.2)
exit-TellsRight operation elapsed attempts members BarrierDecision.timeout output h right =
    subst (λ o. TellsRight operation members (barrier_exit o)) (ok-injective h)
      (timed_out _ refl right.0 right.1)

-- When no more members are asked for than there are and the loop ends, the command exits well only
-- if enough members are satisfied. Otherwise too few are, and the exit code tells a timeout, with
-- enough members left, from cancelled members without failures and from failed members.
pub barrier_loop-TellsRight :
    (operation : BarrierOperation) (world : World) (n : ℕ) (members final : Members)
    (output : BarrierOutput)
    → operation.required ≤ length members
    → barrier_loop n operation world 0 members ≡ ok (final, output)
    → TellsRight operation final (barrier_exit output)
unfolding EndedBy
barrier_loop-TellsRight operation world n members final output h e =
    let (r, _, made, size) = barrier_loop-EndedBy operation world n 0 members final output e in
    exit-TellsRight operation (world.elapsed r) (r + 1) final _ output made
      (evaluate_barrier-IsRight operation (world.elapsed r) final (omega arith))
