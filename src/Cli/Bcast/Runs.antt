-- ===== src/Cli/Bcast/Runs.antt =====
-- crates/missive-cli/src/bcast.rs: the members are reached one by one, or all are planned first and
-- reached by a thread for each.
use missive.Common.{
  ℕ, suc, compare, Ordering, Bool, true, false, not, ◌&&◌, Option, none, some, List, [], ◌∷◌, ◌++◌,
  map, sort_by,
}
use missive.Common.Str.{Str}
use missive.Core.Error.{Result, ok, err, panic, hang, ◌>>=◌, ◌>>◌, orchestration_error}
use missive.Cli.Barrier.{GroupMember}
use missive.Cli.Bcast.{
  BcastFailurePolicy, BcastMemberView, SendMessageResponse, World, is_late, is_succeeded,
  failed_member_view, timeout_member_before_start, persist_member_result,
}

-- What comes of a member before it is sent to: a view that ends it, or the id of its message.
pub data Planned : Type 0 where
  early : BcastMemberView → Planned
  ready : Str → Planned

unfoldable pub plan_member : World → Option ℕ → ℕ → GroupMember → Result Planned
plan_member world deadline index member =
    elim (timeout_member_before_start (world.before index) member deadline) [
      | some timeout ↦ world.append_event index >> ok (early timeout)
      | none ↦ elim (world.plan index) [
        | ok id ↦ ok (ready id)
        | err e ↦ world.append_event index >> ok (early (failed_member_view member e false))
        | panic ↦ panic
        | hang ↦ hang
      ]
    ]

-- The result of a send is stored and told.
unfoldable pub settle_member :
    World → Option ℕ → ℕ → GroupMember → Str → Result SendMessageResponse → Result BcastMemberView
settle_member world deadline index member id outcome = do
  view ← persist_member_result world index member id outcome (is_late deadline (world.after index))
  told ← world.append_event index
  ok view

abbrev pub is_stop : BcastFailurePolicy → Bool
is_stop BcastFailurePolicy.stop = true
is_stop BcastFailurePolicy.proceed = false

unfoldable pub sequential_member : World → Option ℕ → ℕ → GroupMember → Result BcastMemberView
sequential_member world deadline index member = do
  planned ← plan_member world deadline index member
  elim planned [
    | early view ↦ ok view
    | ready id ↦ settle_member world deadline index member id (world.send index)
  ]

unfoldable pub sequential_from :
    World → BcastFailurePolicy → Option ℕ → ℕ → List GroupMember → Result (List BcastMemberView)
sequential_from world policy deadline index [] = ok []
sequential_from world policy deadline index (member ∷ members) = do
  view ← sequential_member world deadline index member
  elim (not (is_succeeded view.status) && is_stop policy) [
    | true ↦ ok (view ∷ [])
    | false ↦ do
      views ← sequential_from world policy deadline (suc index) members
      ok (view ∷ views)
  ]

abbrev pub run_bcast_sequential :
    World → BcastFailurePolicy → Option ℕ → List GroupMember → Result (List BcastMemberView)
run_bcast_sequential world policy deadline = sequential_from world policy deadline 0

pub record PlannedMember : Type 0 where
  pub index : ℕ
  pub member : GroupMember
  pub id : Str

-- The results that are there before any thread starts, and the members to send to.
abbrev pub Stage : Type 0
Stage = List (ℕ × BcastMemberView) × List PlannedMember

abbrev pub file_member : ℕ → GroupMember → Planned → Stage → Stage
file_member index member (early view) rest = ((index, view) ∷ rest.0, rest.1)
file_member index member (ready id) rest =
    (rest.0, record { index = index; member = member; id = id } ∷ rest.1)

unfoldable pub plan_members : World → Option ℕ → ℕ → List GroupMember → Result Stage
plan_members world deadline index [] = ok ([], [])
plan_members world deadline index (member ∷ members) = do
  planned ← plan_member world deadline index member
  rest ← plan_members world deadline (suc index) members
  ok (file_member index member planned rest)

-- `handle.join()`: a thread that panicked is an error.
abbrev pub join : Result SendMessageResponse → Result (Result SendMessageResponse)
join (ok response) = ok (ok response)
join (err e) = ok (err e)
join panic = err (orchestration_error "broadcast worker thread panicked")
join hang = hang

unfoldable pub join_members :
    World → Option ℕ → List PlannedMember → Result (List (ℕ × BcastMemberView))
join_members world deadline [] = ok []
join_members world deadline (planned ∷ rest) = do
  outcome ← join (world.send planned.index)
  view ← settle_member world deadline planned.index planned.member planned.id outcome
  views ← join_members world deadline rest
  ok ((planned.index, view) ∷ views)

-- `sort_by_key(|(index, _)| *index)`.
abbrev pub compare_index : ℕ × BcastMemberView → ℕ × BcastMemberView → Ordering
compare_index a b = compare a.0 b.0

abbrev pub drop_index : ℕ × BcastMemberView → BcastMemberView
drop_index row = row.1

unfoldable pub run_bcast_concurrent :
    World → Option ℕ → List GroupMember → Result (List BcastMemberView)
run_bcast_concurrent world deadline members = do
  (early_results, planned) ← plan_members world deadline 0 members
  joined ← join_members world deadline planned
  ok (map drop_index (sort_by compare_index (early_results ++ joined)))
