-- ===== src/Cli/Barrier/Settled.antt =====
-- crates/missive-cli/src/barrier.rs: what a refresh keeps of a member.
use missive.Common.{
  ℕ, suc, ◌≤◌, ◌≡◌, refl, Bool, true, false, Option, none, some, List, [], ◌∷◌, ◌⊎◌, inl, inr,
  arith, length, count_by, map_from, length-map_from, if◌then◌else◌, Bool-cases,
}
use missive.Common.Str.{Str}
use missive.Core.Error.{MissiveError}
use missive.Store.Tasks.{TaskState, TaskRecord}
use missive.Cli.Barrier.{
  BarrierTargets, BarrierMemberState, MemberBarrierStatus, GroupMember, new_member_state,
  apply_record, mark_missing, mark_error, classify_record_state, is_success, is_disqualified,
}
use missive.Cli.Barrier.Refresh.{
  BarrierOperation, Readings, Refreshed, is_settled, one_more, refresh_barrier_member, fetch_remote,
  apply_then_fetch, refresh_local_member, refresh_remote_member, or_error, apply_or_missing,
  apply_fetched,
}
use missive.Cli.Barrier.Polling.{Members, World, refresh_members, reached_count, disqualified_count}

-- A settled member keeps everything but the count of its attempts.
refresh-settled :
    (operation : BarrierOperation) (out : Readings) (m : BarrierMemberState)
    → is_settled m ≡ true
    → refresh_barrier_member operation out m ≡ record m { attempts = one_more m.attempts }
unfolding refresh_barrier_member
refresh-settled operation out m h = ground arith

module _ {ℓ} {A : Type ℓ} (p : A → Bool) (f : ℕ → A → A)
    (kept : (i : ℕ) (x : A) → p x ≡ true → p (f i x) ≡ true) where
  count_by-map_from : (i : ℕ) (xs : List A) → count_by p xs ≤ count_by p (map_from i f xs)
  count_by-map_from i [] = omega arith
  count_by-map_from i (x ∷ xs) =
      let rest = count_by-map_from (suc i) xs in
      elim (Bool-cases (p x)) [
        | inl hit ↦ let after = kept i x hit in ground arith
        | inr miss ↦ ground arith
      ]

count_of :
    (p : MemberBarrierStatus → Bool) (operation : BarrierOperation) (world : World) (round : ℕ)
    (members : Members)
    → ((m : BarrierMemberState) → p m.status ≡ true → is_settled m ≡ true)
    → count_by (λ (m : BarrierMemberState). p m.status) members
      ≤ count_by
          (λ (m : BarrierMemberState). p m.status)
          (refresh_members operation world round members)
count_of p operation world round members settled =
    count_by-map_from (λ (m : BarrierMemberState). p m.status)
      (λ i m. refresh_barrier_member operation (world.readings round i) m)
      (λ i m h. rw (refresh-settled operation (world.readings round i) m (settled m h)) h) 0 members

-- A round of refreshes loses no member, and neither a satisfied nor a disqualified one is lost to
-- another status.
pub refresh_members-reached :
    (operation : BarrierOperation) (world : World) (round : ℕ) (members : Members)
    → (length (refresh_members operation world round members) ≡ length members)
      × (reached_count members ≤ reached_count (refresh_members operation world round members))
      × (disqualified_count members
          ≤ disqualified_count (refresh_members operation world round members))
refresh_members-reached operation world round members = (
  length-map_from 0 _ members,
  count_of is_success operation world round members (λ m h. ground arith),
  count_of is_disqualified operation world round members (λ m h. ground arith),
)

-- What a member knows: no task was looked for yet, its task is not there, a state was read and
-- classed, or a call failed.
pub data IsFaithful (targets : BarrierTargets) (m : BarrierMemberState) : Type 0 where
  waiting :
      m.state ≡ none
      → m.status ≡ MemberBarrierStatus.pending
      → m.error ≡ none
      → IsFaithful targets m
  absent :
      m.state ≡ none
      → m.status ≡ MemberBarrierStatus.missing
      → m.error ≡ none
      → IsFaithful targets m
  known :
      (s : TaskState)
      → m.state ≡ some s
      → m.status ≡ classify_record_state s targets
      → m.error ≡ none
      → IsFaithful targets m
  broken :
      (e : MissiveError)
      → m.status ≡ MemberBarrierStatus.error
      → m.error ≡ some e
      → IsFaithful targets m

pub new_member_state-IsFaithful :
    (targets : BarrierTargets) (member : GroupMember) (task_id : Option Str)
    → IsFaithful targets (new_member_state member task_id)
unfolding new_member_state
new_member_state-IsFaithful targets member task_id = waiting refl refl refl

branch {ℓ κ} :
    {A : Type ℓ} (P : A → Type κ) (b : Bool) (x y : A) → P x → P y → P (if b then x else y)
branch P true x y h g = h
branch P false x y h g = g

module _ (targets : BarrierTargets) where
  abbrev IsSound : Refreshed → Type 0
  IsSound r = r.1 ≡ none → IsFaithful targets r.0

  apply_record-IsFaithful :
      (m : BarrierMemberState) (r : TaskRecord) → IsFaithful targets (apply_record m r targets)
  unfolding apply_record
  apply_record-IsFaithful m r = known r.state refl refl refl

  mark_missing-IsFaithful : (m : BarrierMemberState) → IsFaithful targets (mark_missing m)
  unfolding mark_missing
  mark_missing-IsFaithful m = absent refl refl refl

  or_error-IsFaithful : (r : Refreshed) → IsSound r → IsFaithful targets (or_error r)
  unfolding or_error mark_error
  or_error-IsFaithful (m, none) h = h refl
  or_error-IsFaithful (m, some e) h = broken e refl refl

  apply_or_missing-IsSound :
      (m : BarrierMemberState) (x : MissiveError ⊎ Option TaskRecord)
      → IsSound (apply_or_missing targets m x)
  unfolding apply_or_missing
  apply_or_missing-IsSound m (inl e) h = absurd cc
  apply_or_missing-IsSound m (inr none) h = mark_missing-IsFaithful m
  apply_or_missing-IsSound m (inr (some r)) h = apply_record-IsFaithful m r

  apply_fetched-IsSound :
      (m : BarrierMemberState) (x : MissiveError ⊎ (Str × TaskRecord))
      → IsSound (apply_fetched targets m x)
  unfolding apply_fetched
  apply_fetched-IsSound m (inl e) h = absurd cc
  apply_fetched-IsSound m (inr (i, r)) h =
      apply_record-IsFaithful (record m { selected_interface = some i }) r

  either-IsSound :
      (o : Option Str) (a : Refreshed) (f : Str → Refreshed)
      → IsSound a
      → ((t : Str) → IsSound (f t))
      → IsSound (elim o [ none ↦ a | some t ↦ f t ])
  either-IsSound none a f h g = h
  either-IsSound (some t) a f h g = g t

  fetch_remote-IsSound :
      (out : Readings) (m : BarrierMemberState) → IsSound (fetch_remote out targets m)
  unfolding fetch_remote
  fetch_remote-IsSound out m =
      either-IsSound m.task_id _ _ (λ _. mark_missing-IsFaithful m)
        (λ t. apply_fetched-IsSound m (out.get_remote_task t))

  apply_then_fetch-IsSound :
      (out : Readings) (m : BarrierMemberState) (x : MissiveError ⊎ Option TaskRecord)
      → IsSound (apply_then_fetch out targets m x)
  unfolding apply_then_fetch
  apply_then_fetch-IsSound out m (inl e) h = absurd cc
  apply_then_fetch-IsSound out m (inr none) h = fetch_remote-IsSound out m h
  apply_then_fetch-IsSound out m (inr (some r)) h =
      let applied = apply_record m r targets in
      branch IsSound (is_settled applied) (applied, none) (fetch_remote out targets applied)
        (λ _. apply_record-IsFaithful m r) (fetch_remote-IsSound out applied) h

  refresh_local_member-IsSound :
      (out : Readings) (context_id : Str) (m : BarrierMemberState)
      → IsSound (refresh_local_member out context_id targets m)
  unfolding refresh_local_member
  refresh_local_member-IsSound out context_id m =
      either-IsSound m.task_id _ _ (apply_or_missing-IsSound m _)
        (λ t. apply_or_missing-IsSound m (out.get_task t))

  refresh_remote_member-IsSound :
      (out : Readings) (context_id : Str) (m : BarrierMemberState)
      → IsSound (refresh_remote_member out context_id targets m)
  unfolding refresh_remote_member
  refresh_remote_member-IsSound out context_id m =
      either-IsSound m.task_id _ _ (apply_then_fetch-IsSound out m _)
        (λ t. apply_then_fetch-IsSound out m (out.get_task t))

attempts-IsFaithful :
    (targets : BarrierTargets) (m : BarrierMemberState) (n : ℕ)
    → IsFaithful targets m
    → IsFaithful targets (record m { attempts = n })
attempts-IsFaithful targets m n (waiting a b c) = waiting a b c
attempts-IsFaithful targets m n (absent a b c) = absent a b c
attempts-IsFaithful targets m n (known s a b c) = known s a b c
attempts-IsFaithful targets m n (broken e a b) = broken e a b

-- If the status of a member is the class of the state it shows, or says that there is no task, or
-- that a call failed and with what error, then so it is after a refresh, whatever the store and the
-- agents answer.
pub refresh_barrier_member-IsFaithful :
    (operation : BarrierOperation) (out : Readings) (m : BarrierMemberState)
    → IsFaithful operation.targets m
    → IsFaithful operation.targets (refresh_barrier_member operation out m)
unfolding refresh_barrier_member
refresh_barrier_member-IsFaithful operation out m h =
    let begun = record m { attempts = one_more m.attempts } in
    let kept = attempts-IsFaithful operation.targets m (one_more m.attempts) h in
    branch (IsFaithful operation.targets) (is_settled begun) begun _ kept (
      or_error-IsFaithful operation.targets _ (
        branch (IsSound operation.targets) operation.is_local _ _
          (refresh_local_member-IsSound operation.targets out operation.context_id begun)
          (refresh_remote_member-IsSound operation.targets out operation.context_id begun)))
