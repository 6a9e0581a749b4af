-- ===== src/Cli/Bcast/Output.antt =====
-- crates/missive-cli/src/bcast.rs: the summary of a broadcast, and the result of the command.
use missive.Common.{
  ℕ, ◌-◌, Bool, not, ◌&&◌, Option, List, [], ◌∷◌, any, count_by, length, ltb, ◌==◌, if◌then◌else◌,
}
use missive.Core.Error.{
  Result, ok, err, ◌>>=◌, MissiveExitCode, orchestration_error, with_exit_code,
}
use missive.Cli.Barrier.{GroupMember}
use missive.Cli.Bcast.{
  BcastFailurePolicy, BcastExecution, BcastMemberView, MemberStatus, World, is_late, is_succeeded,
  is_failed, is_timeout,
}
use missive.Cli.Bcast.Runs.{is_stop, run_bcast_sequential, run_bcast_concurrent}

-- `member.status == "…"`.
abbrev pub has_succeeded : BcastMemberView → Bool
has_succeeded view = is_succeeded view.status

abbrev pub has_failed : BcastMemberView → Bool
has_failed view = is_failed view.status

abbrev pub has_timed_out : BcastMemberView → Bool
has_timed_out view = is_timeout view.status

-- The last view whose status is `failed`.
unfoldable pub mark_last_failure_as_timeout : List BcastMemberView → List BcastMemberView
mark_last_failure_as_timeout [] = []
mark_last_failure_as_timeout (view ∷ views) =
    let rest = mark_last_failure_as_timeout views in
    if any has_failed views
    then view ∷ rest
    else (if has_failed view then record view { status = MemberStatus.timeout } else view) ∷ views

pub data BcastStatus : Type 0 where
  succeeded partial_failure failed timeout : BcastStatus

-- Names, texts and durations, which are only shown, are left out.
pub record BcastOutput : Type 0 where
  pub status : BcastStatus
  pub member_count : ℕ
  pub success_count : ℕ
  pub failure_count : ℕ
  pub members : List BcastMemberView

unfoldable pub finalize_bcast_output : List GroupMember → List BcastMemberView → BcastOutput
finalize_bcast_output group views =
    let success_count = count_by has_succeeded views in
    let failure_count = length views - success_count in
    record {
      status =
          if any has_timed_out views
          then BcastStatus.timeout
          else if (failure_count == 0) && (length views == length group)
          then BcastStatus.succeeded
          else if ltb 0 success_count
          then BcastStatus.partial_failure
          else BcastStatus.failed;
      member_count = length group;
      success_count = success_count;
      failure_count = failure_count;
      members = views;
    }

unfoldable pub bcast_exit : BcastFailurePolicy → BcastOutput → Result (Unit {0})
bcast_exit policy output = elim output.status [
  | BcastStatus.succeeded ↦ ok tt
  | BcastStatus.partial_failure ↦
      if is_stop policy
      then err (orchestration_error "broadcast finished with failed member(s)")
      else ok tt
  | BcastStatus.timeout ↦
      err (with_exit_code (orchestration_error "broadcast timed out") MissiveExitCode.task_timeout)
  | BcastStatus.failed ↦ err (orchestration_error "broadcast finished with failed member(s)")
]

-- A broadcast that ends late counts as a timeout when some member was not reached. `finished` is the
-- clock after the run.
unfoldable pub settle_late : Option ℕ → ℕ → List BcastMemberView → List BcastMemberView
settle_late deadline finished views =
    if is_late deadline finished
      && (not (any has_timed_out views) && any (λ view. not (has_succeeded view)) views)
    then mark_last_failure_as_timeout views
    else views

abbrev pub run_bcast :
    World
    → BcastExecution
    → BcastFailurePolicy
    → Option ℕ
    → List GroupMember
    → Result (List BcastMemberView)
run_bcast world BcastExecution.sequential policy deadline group =
    run_bcast_sequential world policy deadline group
run_bcast world BcastExecution.concurrent policy deadline group =
    run_bcast_concurrent world deadline group

-- From the prepared operation to its output; the exit is `bcast_exit`.
unfoldable pub execute_bcast :
    World
    → BcastExecution
    → BcastFailurePolicy
    → Option ℕ
    → ℕ
    → List GroupMember
    → Result BcastOutput
execute_bcast world execution policy deadline finished group = do
  views ← run_bcast world execution policy deadline group
  ok (finalize_bcast_output group (settle_late deadline finished views))
