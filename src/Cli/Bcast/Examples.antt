-- ===== src/Cli/Bcast/Examples.antt =====
-- Runs of crates/missive-cli/src/bcast.rs on a group of three whose second member cannot be reached.
use missive.Common.{◌*◌, ◌≡◌, refl, ◌↔◌, none, some, List, [], ◌∷◌, if◌then◌else◌, ◌==◌, length}
use missive.Common.Str.{lit}
use missive.Core.Error.{ok, err, new_error, ErrorCategory}
use missive.Cli.Barrier.{GroupMember}
use missive.Cli.Bcast.{
  BcastFailurePolicy, BcastExecution, BcastMemberView, SendMessageResponse, World, is_late,
  timeout_member_before_start, persist_member_result,
}
use missive.Cli.Bcast.Runs.{
  run_bcast_sequential, run_bcast_concurrent, sequential_from, sequential_member, plan_member,
  settle_member, plan_members, join_members,
}
use missive.Cli.Bcast.Output.{BcastOutput, execute_bcast, finalize_bcast_output}
use missive.Cli.Bcast.Agreement.{run_bcast_concurrent-sequential}
use missive.Cli.Bcast.Reports.{Tells, Reports, stops_by, execute_bcast-Tells, execute_bcast-Reports}

abbrev crew : List GroupMember
crew =
    record { agent_alias = lit "x"; rank_name = lit "r0" }
    ∷ record { agent_alias = lit "y"; rank_name = lit "r1" }
    ∷ record { agent_alias = lit "z"; rank_name = lit "r2" }
    ∷ []

abbrev world : World
world = record {
  before = λ i. 10 * i;
  after = λ i. 10 * i;
  plan = λ i. ok (lit "m");
  send = λ i.
      if i == 1
      then err (new_error ErrorCategory.transport "unreachable")
      else ok (SendMessageResponse.task (lit "t") (lit "c") none (lit "working"));
  persist = λ i. ok (record { task_id = some (lit "t"); context_id = none });
  append_event = λ i. ok tt;
}

abbrev views : List BcastMemberView
views = elim (run_bcast_sequential world BcastFailurePolicy.proceed (some 100) crew) [
  | ok given ↦ given
  | _ ↦ []
]

abbrev output : BcastFailurePolicy → BcastOutput
output policy = elim (execute_bcast world BcastExecution.sequential policy (some 100) 120 crew) [
  | ok given ↦ given
  | _ ↦ finalize_bcast_output crew []
]

run_bcast_concurrent-sequential_example :
    (run_bcast_concurrent world (some 100) crew ≡ ok views)
    ↔ (run_bcast_sequential world BcastFailurePolicy.proceed (some 100) crew ≡ ok views)
run_bcast_concurrent-sequential_example =
    run_bcast_concurrent-sequential world (some 100) crew views

execute_bcast-Tells_example :
    Tells BcastFailurePolicy.stop
      (is_late (some 100) 120)
      (length crew)
      (output BcastFailurePolicy.stop)
unfolding execute_bcast sequential_from sequential_member plan_member timeout_member_before_start
    settle_member persist_member_result
execute_bcast-Tells_example =
    execute_bcast-Tells world BcastExecution.sequential BcastFailurePolicy.stop (some 100) 120 crew
      (output BcastFailurePolicy.stop) refl

execute_bcast-Reports_example :
    Reports
      (stops_by BcastExecution.concurrent BcastFailurePolicy.stop)
      crew
      (output BcastFailurePolicy.proceed).members
unfolding execute_bcast run_bcast_concurrent plan_members plan_member timeout_member_before_start
    join_members settle_member persist_member_result sequential_from finalize_bcast_output
    sequential_member
execute_bcast-Reports_example =
    execute_bcast-Reports world BcastExecution.concurrent BcastFailurePolicy.stop (some 100) 120
      crew (output BcastFailurePolicy.proceed) refl

length-views : length views ≡ 3
unfolding sequential_from sequential_member plan_member timeout_member_before_start settle_member
    persist_member_result
length-views = refl
