-- ===== src/Cli/Barrier/Polling.antt =====
-- crates/missive-cli/src/barrier.rs: the decision after each round, the output, the exit, and the
-- loop of `execute_barrier_command`.
use missive.Common.{
  ℕ, zero, suc, ◌+◌, ◌-◌, Bool, true, false, ◌&&◌, List, map, leb, ltb, ◌==◌, if◌then◌else◌, length,
  count_by, map_from,
}
use missive.Common.Str.{Str, lit, str_eq}
use missive.Core.Error.{
  Result, ok, err, panic, hang, ◌>>=◌, MissiveExitCode, orchestration_error, with_exit_code,
}
use missive.Store.Tasks.{task_state_as_str}
use missive.Cli.Barrier.{
  BarrierMemberState, BarrierFailurePolicy, is_success, is_failure, is_cancellation, is_pending,
  is_disqualified,
}
use missive.Cli.Barrier.Refresh.{BarrierOperation, Readings, refresh_barrier_member}

pub data BarrierDecision : Type 0 where
  proceed succeeded failed cancelled timeout : BarrierDecision

abbrev pub Members : Type 0
Members = List BarrierMemberState

abbrev pub reached_count : Members → ℕ
reached_count = count_by (λ m. is_success m.status)

abbrev pub failure_count : Members → ℕ
failure_count = count_by (λ m. is_failure m.status)

abbrev pub cancellation_count : Members → ℕ
cancellation_count = count_by (λ m. is_cancellation m.status)

abbrev pub pending_count : Members → ℕ
pending_count = count_by (λ m. is_pending m.status)

abbrev pub disqualified_count : Members → ℕ
disqualified_count = count_by (λ m. is_disqualified m.status)

abbrev pub is_stop : BarrierFailurePolicy → Bool
is_stop BarrierFailurePolicy.stop = true
is_stop BarrierFailurePolicy.proceed = false

-- The second argument is `operation.started_at.elapsed()`.
unfoldable pub evaluate_barrier : BarrierOperation → ℕ → Members → BarrierDecision
evaluate_barrier operation elapsed members =
    if leb operation.required (reached_count members)
    then BarrierDecision.succeeded
    else if is_stop operation.failure_policy && ltb 0 (failure_count members)
    then BarrierDecision.failed
    else if is_stop operation.failure_policy && ltb 0 (cancellation_count members)
    then BarrierDecision.cancelled
    else if ltb (length members - disqualified_count members) operation.required
    then if ltb 0 (cancellation_count members) && (failure_count members == 0)
      then BarrierDecision.cancelled
      else BarrierDecision.failed
    else if leb operation.timeout elapsed
    then BarrierDecision.timeout
    else BarrierDecision.proceed

-- The numbers and names of the output; the identifiers, the views of the members, the
-- time that passed and the message are left out.
pub record BarrierOutput : Type 0 where
  pub group : Str
  pub context_id : Str
  pub status : Str
  pub is_local : Bool
  pub from_bcast : Bool
  pub attempts : ℕ
  pub member_count : ℕ
  pub required : ℕ
  pub reached_count : ℕ
  pub failure_count : ℕ
  pub cancellation_count : ℕ
  pub pending_count : ℕ
  pub target_states : List Str
  pub success_states : List Str
  pub timeout_ms : ℕ
  pub interval_ms : ℕ

-- The `match` on the decision, with its `unreachable!`.
unfoldable pub decision_status : BarrierDecision → Result Str
decision_status BarrierDecision.succeeded = ok (lit "succeeded")
decision_status BarrierDecision.failed = ok (lit "failed")
decision_status BarrierDecision.cancelled = ok (lit "cancelled")
decision_status BarrierDecision.timeout = ok (lit "timeout")
decision_status BarrierDecision.proceed = panic

unfoldable pub finalize_barrier_output :
    BarrierOperation → Members → ℕ → BarrierDecision → Result BarrierOutput
unfolding decision_status
finalize_barrier_output operation members attempts decision = do
  status ← decision_status decision
  ok (record {
    group = operation.group;
    context_id = operation.context_id;
    status = status;
    is_local = operation.is_local;
    from_bcast = operation.from_bcast;
    attempts = attempts;
    member_count = length members;
    required = operation.required;
    reached_count = reached_count members;
    failure_count = failure_count members;
    cancellation_count = cancellation_count members;
    pending_count = pending_count members;
    target_states = map task_state_as_str operation.targets.target_states;
    success_states = map task_state_as_str operation.targets.success_states;
    timeout_ms = operation.timeout;
    interval_ms = operation.interval;
  })

unfoldable pub barrier_exit : BarrierOutput → Result (Unit {0})
barrier_exit output =
    if str_eq output.status (lit "succeeded")
    then ok tt
    else if str_eq output.status (lit "timeout")
    then err (
        with_exit_code (orchestration_error "barrier for group {:?} timed out after {} ms")
          MissiveExitCode.task_timeout)
    else if str_eq output.status (lit "cancelled")
    then err (
        with_exit_code
          (orchestration_error "barrier for group {:?} observed cancelled member task(s)")
          MissiveExitCode.task_cancelled)
    else err (
        with_exit_code (orchestration_error "barrier for group {:?} failed before reaching quorum")
          MissiveExitCode.task_failed)

-- The world around the command: what the refresh of a member finds in a round, the member told by
-- its place, and the milliseconds that have passed by the decision of a round.
pub record World : Type 0 where
  pub readings : ℕ → ℕ → Readings
  pub elapsed : ℕ → ℕ

abbrev pub is_proceed : BarrierDecision → Bool
is_proceed BarrierDecision.proceed = true
is_proceed _ = false

abbrev pub refresh_members : BarrierOperation → World → ℕ → Members → Members
refresh_members operation world round =
    map_from 0 (λ place m. refresh_barrier_member operation (world.readings round place) m)

-- The loop of `execute_barrier_command`, from the round `round`, with the members and the output at
-- the end. The first number bounds the rounds.
unfoldable pub barrier_loop :
    ℕ → BarrierOperation → World → ℕ → Members → Result (Members × BarrierOutput)
barrier_loop zero operation world round members = hang
barrier_loop (suc n) operation world round members =
    let attempts = round + 1 in
    let refreshed = refresh_members operation world round members in
    let decision = evaluate_barrier operation (world.elapsed round) refreshed in
    elim (is_proceed decision) [
      | true ↦ barrier_loop n operation world attempts refreshed
      | false ↦ finalize_barrier_output operation refreshed attempts decision >>= λ output.
          ok (refreshed, output)
    ]
