-- ===== src/Cli/Barrier.antt =====
-- crates/missive-cli/src/barrier.rs: `missive barrier` waits until enough members of a group have a
-- task in a target state.
--
-- What the command reads from outside is an argument: `Readings` for the store and the remote
-- agents, and the elapsed time. A function that takes `&mut member` returns the new member.
pub mod Refresh
pub mod Polling
pub mod Settled
pub mod Targets
pub mod Decision
pub mod Loop
pub mod Exit
pub mod Prepare
pub mod Ready
mod Examples
use missive.Common.{
  ℕ, zero, suc, ◌+◌, ◌-◌, String, Bool, true, false, not, ◌&&◌, ◌||◌, Option, none, some, List, [],
  ◌∷◌, map, leb, ltb, if◌then◌else◌, length, any, is_empty, filter_by, count_by, max_by, compare,
  Ordering, ◌⊎◌, inl, inr,
}
use missive.Common.Str.{Str, lit, str_eq, str_cmp}
use missive.Core.Error.{
  Result, ok, err, panic, hang, ◌>>=◌, MissiveError, MissiveExitCode, orchestration_error,
  with_exit_code,
}
use missive.Store.Tasks.{TaskState, TaskSource, TaskRecord, same_state}

pub data BarrierFailurePolicy : Type 0 where
  stop proceed : BarrierFailurePolicy

pub record BarrierTargets : Type 0 where
  pub explicit : Bool
  pub target_states : List TaskState
  pub success_states : List TaskState

abbrev pub has_state : List TaskState → TaskState → Bool
has_state states state = any (same_state state) states

-- The states that `unique.insert` lets through, `seen` being those inserted so far.
unfoldable pub unique_states : List TaskState → List TaskState → List TaskState
unique_states seen [] = []
unique_states seen (state ∷ states) = elim (has_state seen state) [
  | true ↦ unique_states seen states
  | false ↦ state ∷ unique_states (state ∷ seen) states
]

-- `BarrierTargets::from_args`.
unfoldable pub from_args : List TaskState → BarrierTargets
unfolding unique_states
from_args states =
    let explicit_states = unique_states [] states in
    if is_empty explicit_states
    then record {
      explicit = false;
      target_states = TaskState.completed ∷ TaskState.failed ∷ TaskState.cancelled ∷ [];
      success_states = TaskState.completed ∷ [];
    }
    else record {
      explicit = true;
      target_states = explicit_states;
      success_states = explicit_states;
    }

abbrev pub is_success_state : BarrierTargets → TaskState → Bool
is_success_state targets = has_state targets.success_states

abbrev pub is_requested : BarrierTargets → TaskState → Bool
is_requested targets = has_state targets.target_states

pub data MemberBarrierStatus : Type 0 where
  satisfied pending failed cancelled missing error terminal_unmatched : MemberBarrierStatus

unfoldable pub is_success : MemberBarrierStatus → Bool
is_success MemberBarrierStatus.satisfied = true
is_success _ = false

unfoldable pub is_failure : MemberBarrierStatus → Bool
is_failure MemberBarrierStatus.failed = true
is_failure MemberBarrierStatus.error = true
is_failure MemberBarrierStatus.terminal_unmatched = true
is_failure _ = false

unfoldable pub is_cancellation : MemberBarrierStatus → Bool
is_cancellation MemberBarrierStatus.cancelled = true
is_cancellation _ = false

unfoldable pub is_pending : MemberBarrierStatus → Bool
is_pending MemberBarrierStatus.pending = true
is_pending MemberBarrierStatus.missing = true
is_pending _ = false

unfoldable pub is_disqualified : MemberBarrierStatus → Bool
is_disqualified MemberBarrierStatus.failed = true
is_disqualified MemberBarrierStatus.cancelled = true
is_disqualified MemberBarrierStatus.error = true
is_disqualified MemberBarrierStatus.terminal_unmatched = true
is_disqualified _ = false

unfoldable pub is_terminal_task_state : TaskState → Bool
is_terminal_task_state TaskState.completed = true
is_terminal_task_state TaskState.failed = true
is_terminal_task_state TaskState.cancelled = true
is_terminal_task_state _ = false

unfoldable pub classify_record_state : TaskState → BarrierTargets → MemberBarrierStatus
unfolding is_terminal_task_state
classify_record_state state targets =
    if is_success_state targets state
    then MemberBarrierStatus.satisfied
    else if not targets.explicit
    then elim state [
      | TaskState.failed ↦ MemberBarrierStatus.failed
      | TaskState.cancelled ↦ MemberBarrierStatus.cancelled
      | _ ↦ MemberBarrierStatus.pending
    ]
    else if is_terminal_task_state state && not (is_requested targets state)
    then MemberBarrierStatus.terminal_unmatched
    else elim state [
      | TaskState.failed ↦
          if is_requested targets TaskState.failed
          then MemberBarrierStatus.pending
          else MemberBarrierStatus.failed
      | TaskState.cancelled ↦
          if is_requested targets TaskState.cancelled
          then MemberBarrierStatus.pending
          else MemberBarrierStatus.cancelled
      | _ ↦ MemberBarrierStatus.pending
    ]

pub record GroupMember : Type 0 where
  pub agent_alias : Str
  pub rank_name : Str

-- The fields that the decisions read. An interface is kept as its name.
pub record BarrierMemberState : Type 0 where
  pub member : GroupMember
  pub task_id : Option Str
  pub context_id : Option Str
  pub state : Option TaskState
  pub source : Option TaskSource
  pub updated_at : Option ℕ
  pub status : MemberBarrierStatus
  pub attempts : ℕ
  pub selected_interface : Option Str
  pub error : Option MissiveError

-- `BarrierMemberState::new`.
unfoldable pub new_member_state : GroupMember → Option Str → BarrierMemberState
new_member_state member task_id = record {
  member = member;
  task_id = task_id;
  context_id = none;
  state = none;
  source = none;
  updated_at = none;
  status = MemberBarrierStatus.pending;
  attempts = 0;
  selected_interface = none;
  error = none;
}

unfoldable pub apply_record : BarrierMemberState → TaskRecord → BarrierTargets → BarrierMemberState
unfolding classify_record_state
apply_record m r targets = record m {
  task_id = some r.task_id;
  context_id = r.context_id;
  state = some r.state;
  source = some r.source;
  updated_at = some r.updated_at;
  error = none;
  status = classify_record_state r.state targets;
}

unfoldable pub mark_missing : BarrierMemberState → BarrierMemberState
mark_missing m = record m {
  state = none;
  source = none;
  updated_at = none;
  status = MemberBarrierStatus.missing;
  error = none;
}

unfoldable pub mark_error : BarrierMemberState → MissiveError → BarrierMemberState
mark_error m e = record m { status = MemberBarrierStatus.error; error = some e }
