-- ===== src/Cli/Barrier/Examples.antt =====
-- Runs of crates/missive-cli/src/barrier.rs on a group of two whose tasks are in the local store: one
-- is complete, the other works until the second round.
use missive.Core.Ids.{validate_opaque_identifier, validate_identifier_shape}
use missive.Common.{
  ℕ, ◌*◌, ◌≡◌, refl, ◌≤◌, ◌+◌, true, false, Option, none, some, List, [], ◌∷◌, ◌==◌, inr, arith,
  if◌then◌else◌,
}
use missive.Common.Str.{Str, lit, str_eq, str_len, is_whitespace, is_control, trim}
use missive.Core.Error.{Result, ok, err, panic, hang}
use missive.Store.Tasks.{TaskState, TaskSource, TaskRecord, same_state}
use missive.Cli.Barrier.{
  BarrierFailurePolicy, BarrierMemberState, from_args, new_member_state, is_success,
  is_disqualified, is_failure, is_cancellation,
}
use missive.Cli.Barrier.Refresh.{BarrierOperation, Readings, refresh_barrier_member}
use missive.Cli.Barrier.Polling.{
  Members, World, BarrierOutput, evaluate_barrier, barrier_loop, barrier_exit,
  finalize_barrier_output,
}
use missive.Cli.Barrier.Settled.{
  IsFaithful, new_member_state-IsFaithful, refresh_barrier_member-IsFaithful,
}
use missive.Cli.Barrier.Decision.{IsRight, evaluate_barrier-IsRight}
use missive.Cli.Barrier.Loop.{barrier_loop-ok}
use missive.Common.Decimal.{parse_u64, digits_value}
use missive.Cli.Barrier.Prepare.{
  BarrierArgs, BcastReference, GroupStore, prepare_barrier_operation, validate_non_negative_i32,
  context_value, parse_duration_arg, duration_parts, strip_suffix,
}
use missive.Cli.Barrier.Ready.{IsReady, prepare_barrier_operation-IsReady}
use missive.Cli.Barrier.Exit.{TellsRight, barrier_loop-TellsRight}

abbrev group : BarrierOperation
group = record {
  group = lit "crew";
  members =
      record { agent_alias = lit "x"; rank_name = lit "r0" }
      ∷ record { agent_alias = lit "y"; rank_name = lit "r1" }
      ∷ [];
  context_id = lit "c";
  targets = from_args [];
  required = 2;
  timeout = 30000;
  interval = 1000;
  failure_policy = BarrierFailurePolicy.stop;
  is_local = true;
  from_bcast = false;
}

abbrev task : TaskState → Str → TaskRecord
task state id = record {
  task_id = id;
  agent_alias = lit "x";
  context_id = some (lit "c");
  state = state;
  source = TaskSource.remote;
  updated_at = 7;
}

-- The task `t2` is complete from the second round on.
abbrev store : ℕ → Readings
store round = record {
  list_tasks = inr [];
  get_task = λ id. inr (
      some (
        task
          (if str_eq id (lit "t1")
            then TaskState.completed
            else if round == 0
            then TaskState.working
            else TaskState.completed)
          id));
  get_remote_task = λ id. inr (lit "http", task TaskState.unknown id);
}

abbrev world : World
world = record { readings = λ round place. store round; elapsed = λ round. 20000 * round }

abbrev crew : Members
crew =
    new_member_state (record { agent_alias = lit "x"; rank_name = lit "r0" }) (some (lit "t1"))
    ∷ new_member_state (record { agent_alias = lit "y"; rank_name = lit "r1" }) (some (lit "t2"))
    ∷ []

abbrev begun : BarrierMemberState
begun = new_member_state (record { agent_alias = lit "x"; rank_name = lit "r0" }) (some (lit "t1"))

refresh_barrier_member-IsFaithful_example :
    IsFaithful group.targets (refresh_barrier_member group (store 0) begun)
refresh_barrier_member-IsFaithful_example =
    refresh_barrier_member-IsFaithful group (store 0) begun (
      new_member_state-IsFaithful group.targets
        (record { agent_alias = lit "x"; rank_name = lit "r0" }) (some (lit "t1")))

abbrev asked : List TaskState
asked = TaskState.cancelled ∷ TaskState.completed ∷ TaskState.cancelled ∷ []

evaluate_barrier-IsRight_example : IsRight group 40000 crew (evaluate_barrier group 40000 crew)
evaluate_barrier-IsRight_example = evaluate_barrier-IsRight group 40000 crew (omega arith)

barrier_loop-ok_example :
    (final : Members × BarrierOutput) × (barrier_loop 5 group world 0 crew ≡ ok final)
    × (final.1.attempts ≤ 0 + 2 + 1)
barrier_loop-ok_example = barrier_loop-ok group world 5 2 0 crew (omega arith) (omega arith)

abbrev nothing : BarrierOutput
nothing = record {
  group = [];
  context_id = [];
  status = [];
  is_local = false;
  from_bcast = false;
  attempts = 0;
  member_count = 0;
  required = 0;
  reached_count = 0;
  failure_count = 0;
  cancellation_count = 0;
  pending_count = 0;
  target_states = [];
  success_states = [];
  timeout_ms = 0;
  interval_ms = 0;
}

abbrev ended : Result (Members × BarrierOutput) → Members × BarrierOutput
ended (ok final) = final
ended (err e) = (crew, nothing)
ended panic = (crew, nothing)
ended hang = (crew, nothing)

abbrev outcome : Members × BarrierOutput
outcome = ended (barrier_loop 5 group world 0 crew)

barrier_loop-TellsRight_example : TellsRight group outcome.0 (barrier_exit outcome.1)
unfolding barrier_loop evaluate_barrier is_success refresh_barrier_member new_member_state
    is_disqualified from_args same_state str_eq is_failure is_cancellation finalize_barrier_output
barrier_loop-TellsRight_example =
    barrier_loop-TellsRight group world 5 crew outcome.0 outcome.1 (omega arith) refl

abbrev args : BarrierArgs
args = record {
  group = lit "crew";
  context = none;
  states = [];
  required = none;
  timeout = some (lit " 2m");
  interval = some (lit "10s");
  failure_policy = BarrierFailurePolicy.stop;
  is_local = true;
  history_length = none;
}

abbrev groups : GroupStore
groups = record {
  get_group = λ name. ok (some name);
  list_group_members = λ name. ok group.members;
}

abbrev reference : Option BcastReference
reference = some (record { group = some (lit "crew"); context_id = some (lit "c") })

abbrev prepared : BarrierOperation
prepared = record group { timeout = 120000; interval = 5000; from_bcast = true }

prepare_barrier_operation-IsReady_example : IsReady reference prepared
unfolding prepare_barrier_operation validate_non_negative_i32 str_eq context_value
    validate_opaque_identifier str_len is_whitespace is_control validate_identifier_shape
    parse_duration_arg duration_parts strip_suffix trim parse_u64 digits_value
prepare_barrier_operation-IsReady_example =
    prepare_barrier_operation-IsReady groups args reference prepared refl
