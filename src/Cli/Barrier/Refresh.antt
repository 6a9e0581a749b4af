-- ===== src/Cli/Barrier/Refresh.antt =====
-- crates/missive-cli/src/barrier.rs: how the view of one member is brought up to date, from the
-- local store or from the member's agent.
use missive.Common.{
  ℕ, ◌+◌, Bool, false, ◌||◌, Option, none, some, List, ltb, if◌then◌else◌, filter_by, max_by,
  compare, Ordering, ◌⊎◌, inl, inr,
}
use missive.Common.Str.{Str, str_eq, str_cmp}
use missive.Core.Error.{MissiveError}
use missive.Store.Tasks.{TaskRecord}
use missive.Router.Match.{then_with}
use missive.Cli.Barrier.{
  BarrierTargets, GroupMember, BarrierMemberState, apply_record, mark_missing, mark_error,
  is_success, is_disqualified, BarrierFailurePolicy,
}

-- What the commands before the loop have settled. The times are in milliseconds.
pub record BarrierOperation : Type 0 where
  pub group : Str
  pub members : List GroupMember
  pub context_id : Str
  pub targets : BarrierTargets
  pub required : ℕ
  pub timeout : ℕ
  pub interval : ℕ
  pub failure_policy : BarrierFailurePolicy
  pub is_local : Bool
  pub from_bcast : Bool

-- What one refresh finds outside: `Store::list_tasks`, `Store::get_task`, and, for a task of the
-- member, the chosen interface with what `resolve_send_interface`, `TaskClient::get_task` and
-- `persist_barrier_remote_task` come to. The left side is an error.
pub record Readings : Type 0 where
  pub list_tasks : MissiveError ⊎ List TaskRecord
  pub get_task : Str → MissiveError ⊎ Option TaskRecord
  pub get_remote_task : Str → MissiveError ⊎ (Str × TaskRecord)

abbrev pub is_some_str : Option Str → Str → Bool
is_some_str none s = false
is_some_str (some t) s = str_eq t s

abbrev pub compare_records : TaskRecord → TaskRecord → Ordering
compare_records left right =
    then_with (compare left.updated_at right.updated_at) (str_cmp left.task_id right.task_id)

unfoldable pub latest_member_task : Readings → Str → Str → MissiveError ⊎ Option TaskRecord
latest_member_task out agent_alias context_id = elim out.list_tasks [
  | inl e ↦ inl e
  | inr tasks ↦ inr (
      max_by compare_records (
        filter_by (λ (r : TaskRecord). is_some_str r.context_id context_id)
          (filter_by (λ (r : TaskRecord). str_eq r.agent_alias agent_alias) tasks)))
]

abbrev pub is_settled : BarrierMemberState → Bool
is_settled m = is_success m.status || is_disqualified m.status

-- The member as the call leaves it, with the error if it fails.
abbrev pub Refreshed : Type 0
Refreshed = BarrierMemberState × Option MissiveError

-- What is done with the record that was looked for: the same `match` for both lookups.
unfoldable pub apply_or_missing :
    BarrierTargets → BarrierMemberState → MissiveError ⊎ Option TaskRecord → Refreshed
unfolding apply_record mark_missing
apply_or_missing targets m (inl e) = (m, some e)
apply_or_missing targets m (inr none) = (mark_missing m, none)
apply_or_missing targets m (inr (some r)) = (apply_record m r targets, none)

unfoldable pub refresh_local_member :
    Readings → Str → BarrierTargets → BarrierMemberState → Refreshed
unfolding latest_member_task apply_or_missing
refresh_local_member out context_id targets m = elim m.task_id [
  | none ↦ apply_or_missing targets m (latest_member_task out m.member.agent_alias context_id)
  | some task_id ↦ apply_or_missing targets m (out.get_task task_id)
]

-- From `let Some(task_id) = member.task_id.clone() else` on, with the call for the task.
unfoldable pub apply_fetched :
    BarrierTargets → BarrierMemberState → MissiveError ⊎ (Str × TaskRecord) → Refreshed
unfolding apply_record
apply_fetched targets m (inl e) = (m, some e)
apply_fetched targets m (inr (interface, r)) =
    (apply_record (record m { selected_interface = some interface }) r targets, none)

unfoldable pub fetch_remote : Readings → BarrierTargets → BarrierMemberState → Refreshed
unfolding apply_fetched mark_missing
fetch_remote out targets m = elim m.task_id [
  | none ↦ (mark_missing m, none)
  | some task_id ↦ apply_fetched targets m (out.get_remote_task task_id)
]

-- A record that the store has is applied, and fetched anew unless it settles the member.
unfoldable pub apply_then_fetch :
    Readings → BarrierTargets → BarrierMemberState → MissiveError ⊎ Option TaskRecord → Refreshed
unfolding fetch_remote apply_record
apply_then_fetch out targets m (inl e) = (m, some e)
apply_then_fetch out targets m (inr none) = fetch_remote out targets m
apply_then_fetch out targets m (inr (some r)) =
    let applied = apply_record m r targets in
    if is_settled applied then (applied, none) else fetch_remote out targets applied

unfoldable pub refresh_remote_member :
    Readings → Str → BarrierTargets → BarrierMemberState → Refreshed
unfolding apply_then_fetch latest_member_task
refresh_remote_member out context_id targets m = elim m.task_id [
  | none ↦ apply_then_fetch out targets m (latest_member_task out m.member.agent_alias context_id)
  | some task_id ↦ apply_then_fetch out targets m (out.get_task task_id)
]

-- `saturating_add(1)` on a u64.
abbrev pub one_more : ℕ → ℕ
one_more n = if ltb n 0xFFFFFFFFFFFFFFFF then n + 1 else n

unfoldable pub or_error : Refreshed → BarrierMemberState
unfolding mark_error
or_error (m, none) = m
or_error (m, some e) = mark_error m e

unfoldable pub refresh_barrier_member :
    BarrierOperation → Readings → BarrierMemberState → BarrierMemberState
unfolding refresh_local_member refresh_remote_member or_error
refresh_barrier_member operation out member =
    let m = record member { attempts = one_more member.attempts } in
    if is_settled m
    then m
    else or_error (
        if operation.is_local
        then refresh_local_member out operation.context_id operation.targets m
        else refresh_remote_member out operation.context_id operation.targets m)
