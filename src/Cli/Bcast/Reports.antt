-- ===== src/Cli/Bcast/Reports.antt =====
-- crates/missive-cli/src/bcast.rs: what the output of a broadcast reports, and what the exit tells.
use missive.Common.{
  ℕ, suc, ◌+◌, ◌-◌, ◌≡◌, refl, subst, ◌⊎◌, inl, inr, Bool, true, false, not, ◌&&◌, ◌||◌, Option,
  none, some, List, [], ◌∷◌, length, any, all, count_by, arith, ltb, ◌==◌, Bool-cases,
  count_by-le-length,
}
use missive.Core.Error.{
  Result, ok, err, ◌>>=◌, MissiveError, MissiveExitCode, orchestration_error, with_exit_code,
}
use missive.Core.Error.Laws.{>>=-eq-ok, ok-injective}
use missive.Cli.Barrier.{GroupMember}
use missive.Cli.Bcast.{
  BcastFailurePolicy, BcastExecution, BcastMemberView, MemberStatus, World, is_late, is_succeeded,
  is_failed, is_timeout, timeout_member_before_start, persist_member_result, failed_member_view,
  success_member_view,
}
use missive.Cli.Bcast.Runs.{is_stop, plan_member, settle_member, sequential_member, sequential_from}
use missive.Cli.Bcast.Output.{
  has_succeeded, has_failed, has_timed_out, mark_last_failure_as_timeout, BcastOutput,
  finalize_bcast_output, bcast_exit, run_bcast, settle_late, execute_bcast,
}
use missive.Cli.Bcast.Agreement.{run_bcast_concurrent-sequential}

-- Some view is of no success.
abbrev pub has_missed : BcastMemberView → Bool
has_missed view = not (has_succeeded view)

missed-cases :
    (views : List BcastMemberView)
    → any has_missed views ≡ true
    → any has_timed_out views ≡ false
    → any has_failed views ≡ true
missed-cases [] m t = m
missed-cases (view ∷ views) m t =
    elim view.status
        as (λ s.
          (not (is_succeeded s) || any has_missed views) ≡ true
          → (is_timeout s || any has_timed_out views) ≡ false
          → (is_failed s || any has_failed views) ≡ true) [
            | MemberStatus.succeeded ↦ λ m t. missed-cases views m t
            | MemberStatus.failed ↦ λ m t. refl
            | MemberStatus.timeout ↦ λ m t. absurd cc
          ]
      m t

mark-timeout :
    (views : List BcastMemberView)
    → any has_failed views ≡ true
    → any has_timed_out (mark_last_failure_as_timeout views) ≡ true
unfolding mark_last_failure_as_timeout
mark-timeout [] h = h
mark-timeout (view ∷ views) h = ground (arith, mark-timeout views)

-- A broadcast that ends late with a member missed has a timeout.
settle_late-timeout :
    (deadline : Option ℕ) (finished : ℕ) (views : List BcastMemberView)
    → (any has_timed_out (settle_late deadline finished views) ≡ true)
      ⊎ ((any has_timed_out (settle_late deadline finished views) ≡ false)
          × ((is_late deadline finished && any has_missed (settle_late deadline finished views))
              ≡ false))
unfolding settle_late
settle_late-timeout deadline finished views = ground (arith, missed-cases views, mark-timeout views)

count_by-any :
    (views : List BcastMemberView) → any has_succeeded views ≡ ltb 0 (count_by has_succeeded views)
count_by-any [] = refl
count_by-any (view ∷ views) = ground (arith, count_by-any views)

-- The exit is good, and the broadcast deserves it: no timeout, and all members were reached, or some
-- were and the command goes on after failures.
abbrev ExitsWell : BcastFailurePolicy → ℕ → BcastOutput → Type 0
ExitsWell policy size output =
    (bcast_exit policy output ≡ ok tt)
    × (any has_timed_out output.members ≡ false)
    × (((all has_succeeded output.members ≡ true) × (length output.members ≡ size))
        ⊎ ((policy ≡ BcastFailurePolicy.proceed) × (any has_succeeded output.members ≡ true)))

abbrev ExitsBy : BcastFailurePolicy → BcastOutput → Option MissiveExitCode → Type 0
ExitsBy policy output code =
    (e : MissiveError) × (bcast_exit policy output ≡ err e) × (e.override ≡ code)

-- No success is enough for a good exit.
abbrev IsTooFew : BcastFailurePolicy → ℕ → BcastOutput → Type 0
IsTooFew policy size output =
    ((all has_succeeded output.members && (length output.members == size)) ≡ false)
    × ((not (is_stop policy) && any has_succeeded output.members) ≡ false)

unfoldable pub Tells : BcastFailurePolicy → Bool → ℕ → BcastOutput → Type 0
Tells policy late size output =
    (output.success_count + output.failure_count ≡ length output.members)
    × (((any has_timed_out output.members ≡ true)
          × ExitsBy policy output (some MissiveExitCode.task_timeout))
        ⊎ (((late && any has_missed output.members) ≡ false)
            × (ExitsWell policy size output
                ⊎ ((any has_timed_out output.members ≡ false)
                    × IsTooFew policy size output
                    × ExitsBy policy output none))))

all-count_by :
    (views : List BcastMemberView)
    → all has_succeeded views ≡ (length views - count_by has_succeeded views == 0)
all-count_by [] = refl
all-count_by (view ∷ views) =
    ground (arith, all-count_by views, count_by-le-length has_succeeded views)

finalize-Tells :
    (policy : BcastFailurePolicy) (group : List GroupMember) (late : Bool)
    (views : List BcastMemberView)
    → (any has_timed_out views ≡ true)
      ⊎ ((any has_timed_out views ≡ false) × ((late && any has_missed views) ≡ false))
    → Tells policy late (length group) (finalize_bcast_output group views)
unfolding Tells finalize_bcast_output bcast_exit
finalize-Tells policy group late views (inl t) = (
  omega (arith, count_by-le-length has_succeeded views),
  inl (
    t,
    (
      with_exit_code (orchestration_error "broadcast timed out") MissiveExitCode.task_timeout,
      rw t refl,
      refl,
    ),
  ),
)
finalize-Tells policy group late views (inr (t, l)) =
    let counts = count_by-le-length has_succeeded views in
    let whole = all-count_by views in
    let some_ok = count_by-any views in
    (
      omega arith,
      inr (
        l,
        elim (Bool-cases (all has_succeeded views && (length views == length group))) [
          | inl complete ↦ inl (ground arith)
          | inr short ↦ elim (Bool-cases (not (is_stop policy) && any has_succeeded views)) [
            | inl enough ↦ inl ground arith
            | inr few ↦ inr (
              t,
              (short, few),
              (orchestration_error "broadcast finished with failed member(s)", ground arith, refl),
            )
          ]
        ],
      ),
    )

-- What a broadcast that gives an output tells: the counts add up to the views. If a member timed
-- out, or the deadline has passed with a member missed, the exit code says timeout. Otherwise the
-- exit is good exactly if all members were reached, or some were and the command goes on after
-- failures; it is the plain error of the category if not.
pub execute_bcast-Tells :
    (world : World) (execution : BcastExecution) (policy : BcastFailurePolicy) (deadline : Option ℕ)
    (finished : ℕ) (group : List GroupMember) (output : BcastOutput)
    → execute_bcast world execution policy deadline finished group ≡ ok output
    → Tells policy (is_late deadline finished) (length group) output
unfolding execute_bcast
execute_bcast-Tells world execution policy deadline finished group output h =
    let (views, ran, e) = >>=-eq-ok (run_bcast world execution policy deadline group) _ h in
    subst (Tells policy (is_late deadline finished) (length group)) (ok-injective e) (
      finalize-Tells policy group (is_late deadline finished) (settle_late deadline finished views)
        (settle_late-timeout deadline finished views))

-- The views are those of the first members, in order. They end with the group, or with a member that
-- was missed if the command stops there.
unfoldable pub Reports : BcastFailurePolicy → List GroupMember → List BcastMemberView → Type 0
Reports policy [] [] = Unit {0}
Reports policy [] (view ∷ views) = ⊥
Reports policy (member ∷ members) [] = ⊥
Reports policy (member ∷ members) (view ∷ views) =
    (view.agent ≡ member.agent_alias)
    × (view.rank ≡ member.rank_name)
    × elim (has_missed view && is_stop policy) [
      | true ↦ views ≡ []
      | false ↦ Reports policy members views
    ]

-- The threads are all started, whatever the policy.
abbrev pub stops_by : BcastExecution → BcastFailurePolicy → BcastFailurePolicy
stops_by BcastExecution.sequential policy = policy
stops_by BcastExecution.concurrent policy = BcastFailurePolicy.proceed

sequential_member-names :
    (world : World) (deadline : Option ℕ) (n : ℕ) (member : GroupMember) (view : BcastMemberView)
    → sequential_member world deadline n member ≡ ok view
    → (view.agent ≡ member.agent_alias) × (view.rank ≡ member.rank_name)
unfolding sequential_member plan_member settle_member timeout_member_before_start
    persist_member_result failed_member_view success_member_view
sequential_member-names world deadline n member view h = ground arith

-- The rest of the views after the first one.
going-on :
    (halts : Bool) (view : BcastMemberView) (called : Result (List BcastMemberView))
    (P : List BcastMemberView → Type 0) (views : List BcastMemberView)
    → ((later : List BcastMemberView) → called ≡ ok later → P later)
    → elim halts [ true ↦ ok (view ∷ []) | false ↦ called >>= (λ later. ok (view ∷ later)) ]
      ≡ ok views
    → (later : List BcastMemberView) × (view ∷ later ≡ views)
      × elim halts as (λ b. Type 0) [ true ↦ later ≡ [] | false ↦ P later ]
going-on true view called P views more h = ([], ok-injective h, refl)
going-on false view called P views more h =
    let (later, e, last) = >>=-eq-ok called _ h in (later, ok-injective last, more later e)

sequential_from-Reports :
    (world : World) (policy : BcastFailurePolicy) (deadline : Option ℕ) (n : ℕ)
    (members : List GroupMember) (views : List BcastMemberView)
    → sequential_from world policy deadline n members ≡ ok views
    → Reports policy members views
unfolding sequential_from Reports
sequential_from-Reports world policy deadline n [] views h =
    subst (Reports policy []) (ok-injective h) tt
sequential_from-Reports world policy deadline n (member ∷ members) views h =
    let (view, made, rest) = >>=-eq-ok (sequential_member world deadline n member) _ h in
    let (agent, rank) = sequential_member-names world deadline n member view made in
    let (later, e, goes) =
      going-on (has_missed view && is_stop policy) view
        (sequential_from world policy deadline (suc n) members) (Reports policy members) views
        (sequential_from-Reports world policy deadline (suc n) members) rest in
    subst (Reports policy (member ∷ members)) e (agent, rank, goes)

mark-Reports :
    (policy : BcastFailurePolicy) (members : List GroupMember) (views : List BcastMemberView)
    → Reports policy members views
    → Reports policy members (mark_last_failure_as_timeout views)
unfolding Reports mark_last_failure_as_timeout
mark-Reports policy [] [] h = h
mark-Reports policy [] (view ∷ views) h = absurd h
mark-Reports policy (member ∷ members) [] h = absurd h
mark-Reports policy (member ∷ members) (view ∷ views) h =
    ground (arith, mark-Reports policy members views)

run_bcast-Reports :
    (world : World) (execution : BcastExecution) (policy : BcastFailurePolicy) (deadline : Option ℕ)
    (group : List GroupMember) (views : List BcastMemberView)
    → run_bcast world execution policy deadline group ≡ ok views
    → Reports (stops_by execution policy) group views
run_bcast-Reports world BcastExecution.sequential policy deadline group views h =
    sequential_from-Reports world policy deadline 0 group views h
run_bcast-Reports world BcastExecution.concurrent policy deadline group views h =
    sequential_from-Reports world BcastFailurePolicy.proceed deadline 0 group views
      ((run_bcast_concurrent-sequential world deadline group views).0 h)

-- The output has one view for each of the first members, in their order. It has all members when they
-- are reached by threads or the command goes on after failures, and otherwise ends with the first
-- member that was missed or with the group.
pub execute_bcast-Reports :
    (world : World) (execution : BcastExecution) (policy : BcastFailurePolicy) (deadline : Option ℕ)
    (finished : ℕ) (group : List GroupMember) (output : BcastOutput)
    → execute_bcast world execution policy deadline finished group ≡ ok output
    → Reports (stops_by execution policy) group output.members
unfolding execute_bcast finalize_bcast_output settle_late
execute_bcast-Reports world execution policy deadline finished group output h =
    let (views, ran, e) = >>=-eq-ok (run_bcast world execution policy deadline group) _ h in
    let first = run_bcast-Reports world execution policy deadline group views ran in
    subst (λ o. Reports (stops_by execution policy) group o.members) (ok-injective e) ground
      (arith, mark-Reports (stops_by execution policy) group views first)
