-- ===== src/Cli/Bcast.antt =====
-- crates/missive-cli/src/bcast.rs: `missive bcast` sends one message to every member of a group.
--
-- What a run meets outside is an argument, `World`: for each member, told by its index, the clock and
-- what planning, sending and storing come to. A clock reading is in milliseconds from the start.
pub mod Runs
pub mod Output
pub mod Rows
pub mod Stages
pub mod Agreement
pub mod Reports
mod Examples
use missive.Common.{
  or_else, ℕ, ◌+◌, ◌-◌, Bool, true, false, not, ◌&&◌, Option, none, some, List, [], ◌∷◌, leb, ltb,
  ◌==◌, if◌then◌else◌, length, any, count_by,
}
use missive.Common.Str.{Str, lit}
use missive.Core.Error.{
  Result, ok, err, panic, hang, ◌>>=◌, ◌>>◌, MissiveError, MissiveExitCode, orchestration_error,
  with_exit_code,
}
use missive.Cli.Barrier.{GroupMember}

pub data BcastFailurePolicy : Type 0 where
  stop proceed : BcastFailurePolicy

pub data BcastExecution : Type 0 where
  sequential concurrent : BcastExecution

-- The texts of a member's `status`.
pub data MemberStatus : Type 0 where
  succeeded failed timeout : MemberStatus

abbrev pub is_succeeded : MemberStatus → Bool
is_succeeded MemberStatus.succeeded = true
is_succeeded _ = false

abbrev pub is_failed : MemberStatus → Bool
is_failed MemberStatus.failed = true
is_failed _ = false

abbrev pub is_timeout : MemberStatus → Bool
is_timeout MemberStatus.timeout = true
is_timeout _ = false

-- The durations and the chosen interface, which are only shown, are left out.
pub record BcastMemberView : Type 0 where
  pub agent : Str
  pub rank : Str
  pub status : MemberStatus
  pub request_message_id : Option Str
  pub response_shape : Option Str
  pub response_message_id : Option Str
  pub task_id : Option Str
  pub context_id : Option Str
  pub state : Option Str
  pub error : Option MissiveError

-- The protocol's answer to a message, as far as the views show it; a state is its text in the store.
pub data SendMessageResponse : Type 0 where
  message : (message_id : Str) (task_id context_id : Option Str) → SendMessageResponse
  task : (id context_id : Str) (status_message_id : Option Str) (state : Str) → SendMessageResponse

pub record ResponseSummary : Type 0 where
  pub shape : Str
  pub message_id : Option Str
  pub task_id : Option Str
  pub context_id : Option Str
  pub state : Option Str

unfoldable pub response_summary : SendMessageResponse → ResponseSummary
response_summary (SendMessageResponse.message message_id task_id context_id) = record {
  shape = lit "message";
  message_id = some message_id;
  task_id = task_id;
  context_id = context_id;
  state = none;
}
response_summary (SendMessageResponse.task id context_id status_message_id state) = record {
  shape = lit "task";
  message_id = status_message_id;
  task_id = some id;
  context_id = some context_id;
  state = some state;
}

-- What `persist_send` linked the message to.
pub record PersistedSend : Type 0 where
  pub task_id : Option Str
  pub context_id : Option Str

unfoldable pub success_member_view :
    GroupMember → Str → SendMessageResponse → PersistedSend → BcastMemberView
unfolding response_summary
success_member_view member request_message_id outcome persisted =
    let response = response_summary outcome in
    record {
      agent = member.agent_alias;
      rank = member.rank_name;
      status = MemberStatus.succeeded;
      request_message_id = some request_message_id;
      response_shape = some response.shape;
      response_message_id = response.message_id;
      task_id = or_else persisted.task_id response.task_id;
      context_id = or_else persisted.context_id response.context_id;
      state = response.state;
      error = none;
    }

unfoldable pub failed_member_view : GroupMember → MissiveError → Bool → BcastMemberView
failed_member_view member error timed_out = record {
  agent = member.agent_alias;
  rank = member.rank_name;
  status = if timed_out then MemberStatus.timeout else MemberStatus.failed;
  request_message_id = none;
  response_shape = none;
  response_message_id = none;
  task_id = none;
  context_id = none;
  state = none;
  error = some error;
}

-- `plan` stands for `plan_member_send` and gives the id of the message, `send` for
-- `send_planned_member`, `persist` for `persist_send`, and `append_event` for
-- `append_bcast_member_event`.
pub record World : Type 0 where
  pub before : ℕ → ℕ
  pub after : ℕ → ℕ
  pub plan : ℕ → Result Str
  pub send : ℕ → Result SendMessageResponse
  pub persist : ℕ → Result PersistedSend
  pub append_event : ℕ → Result (Unit {0})

-- `deadline.is_some_and(|deadline| Instant::now() >= deadline)`.
abbrev pub is_late : Option ℕ → ℕ → Bool
is_late none now = false
is_late (some deadline) now = leb deadline now

unfoldable pub timeout_member_before_start : ℕ → GroupMember → Option ℕ → Option BcastMemberView
unfolding failed_member_view
timeout_member_before_start now member deadline =
    if is_late deadline now
    then some (
        failed_member_view member
          (orchestration_error "broadcast timeout reached before member send started") true)
    else none

-- `outcome` is the result of the send.
unfoldable pub persist_member_result :
    World → ℕ → GroupMember → Str → Result SendMessageResponse → Bool → Result BcastMemberView
unfolding success_member_view failed_member_view
persist_member_result world index member id (ok outcome) timed_out = do
  persisted ← world.persist index
  ok (success_member_view member id outcome persisted)
persist_member_result world index member id (err e) timed_out =
    ok (failed_member_view member e timed_out)
persist_member_result world index member id panic timed_out = panic
persist_member_result world index member id hang timed_out = hang
