-- ===== src/Cli/Barrier/Decision.antt =====
-- crates/missive-cli/src/barrier.rs: what the decision of a round says about the members.
use missive.Common.{ℕ, ◌+◌, ◌≤◌, ◌<◌, ◌≡◌, refl, [], ◌∷◌, ◌⊎◌, arith, length, count_by}
use missive.Cli.Barrier.{
  MemberBarrierStatus, BarrierFailurePolicy, is_success, is_failure, is_cancellation, is_pending,
  is_disqualified,
}
use missive.Cli.Barrier.Refresh.{BarrierOperation}
use missive.Cli.Barrier.Polling.{
  Members, BarrierDecision, evaluate_barrier, reached_count, failure_count, cancellation_count,
  pending_count, disqualified_count,
}

one_of_four :
    (s : MemberBarrierStatus)
    → (count_by is_success (s ∷ [])
          + count_by is_failure (s ∷ [])
          + count_by is_cancellation (s ∷ [])
          + count_by is_pending (s ∷ [])
        ≡ 1)
      × (count_by is_disqualified (s ∷ [])
          ≡ count_by is_failure (s ∷ []) + count_by is_cancellation (s ∷ []))
unfolding is_success is_failure is_cancellation is_pending is_disqualified
one_of_four MemberBarrierStatus.satisfied = (refl, refl)
one_of_four MemberBarrierStatus.pending = (refl, refl)
one_of_four MemberBarrierStatus.failed = (refl, refl)
one_of_four MemberBarrierStatus.cancelled = (refl, refl)
one_of_four MemberBarrierStatus.missing = (refl, refl)
one_of_four MemberBarrierStatus.error = (refl, refl)
one_of_four MemberBarrierStatus.terminal_unmatched = (refl, refl)

-- The four counts that the output reports part the members, and a member is disqualified if it
-- failed or was cancelled.
pub counts-length :
    (members : Members)
    → (reached_count members
          + failure_count members
          + cancellation_count members
          + pending_count members
        ≡ length members)
      × (disqualified_count members ≡ failure_count members + cancellation_count members)
counts-length [] = (refl, refl)
counts-length (m ∷ ms) =
    let rest = counts-length ms in
    let (one, two) = one_of_four m.status in
    (ground (arith, rest, one, two), ground (arith, rest, one, two))

-- What a decision means, in terms of what the members can still come to: those that are satisfied
-- and those that are pending.
unfoldable pub IsRight : BarrierOperation → ℕ → Members → BarrierDecision → Type 0
IsRight operation elapsed members BarrierDecision.succeeded =
    operation.required ≤ reached_count members
IsRight operation elapsed members BarrierDecision.failed =
    (reached_count members < operation.required)
    × (0 < failure_count members)
    × ((operation.failure_policy ≡ BarrierFailurePolicy.stop)
        ⊎ (reached_count members + pending_count members < operation.required))
IsRight operation elapsed members BarrierDecision.cancelled =
    (reached_count members < operation.required)
    × (0 < cancellation_count members)
    × (failure_count members ≡ 0)
    × ((operation.failure_policy ≡ BarrierFailurePolicy.stop)
        ⊎ (reached_count members + pending_count members < operation.required))
IsRight operation elapsed members BarrierDecision.timeout =
    (reached_count members < operation.required)
    × (operation.required ≤ reached_count members + pending_count members)
    × (operation.timeout ≤ elapsed)
    × ((operation.failure_policy ≡ BarrierFailurePolicy.stop) → disqualified_count members ≡ 0)
IsRight operation elapsed members BarrierDecision.proceed =
    (reached_count members < operation.required)
    × (operation.required ≤ reached_count members + pending_count members)
    × (elapsed < operation.timeout)
    × ((operation.failure_policy ≡ BarrierFailurePolicy.stop) → disqualified_count members ≡ 0)

-- When no more members are asked for than there are, the barrier succeeds only if enough members are
-- satisfied, fails or counts as cancelled only if such members were seen and the policy stops there
-- or too few are left, and times out or goes on only while enough members are left.
pub evaluate_barrier-IsRight :
    (operation : BarrierOperation) (elapsed : ℕ) (members : Members)
    → operation.required ≤ length members
    → IsRight operation elapsed members (evaluate_barrier operation elapsed members)
unfolding evaluate_barrier IsRight
evaluate_barrier-IsRight operation elapsed members h =
    let (parts, dis) = counts-length members in ground arith
