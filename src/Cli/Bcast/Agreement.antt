-- ===== src/Cli/Bcast/Agreement.antt =====
-- crates/missive-cli/src/bcast.rs: both ways of running a broadcast report the same.
use missive.Common.{
  ℕ, suc, ◌≡◌, refl, sym, ap, ◌∙◌, List, [], ◌∷◌, arith, not, ◌⊎◌, ◌↔◌, inl, inr, subst, Option,
}
use missive.Core.Error.{ok}
use missive.Core.Error.Laws.{>>=-eq-ok, ok-injective}
use missive.Cli.Barrier.{GroupMember}
use missive.Common.Str.{Str}
use missive.Cli.Bcast.{BcastFailurePolicy, BcastMemberView, World, is_succeeded}
use missive.Cli.Bcast.Runs.{
  Planned, early, ready, plan_member, settle_member, sequential_member, sequential_from,
  run_bcast_sequential, PlannedMember, plan_members, file_member, Stage, join, join_members,
  run_bcast_concurrent,
}
use missive.Cli.Bcast.Rows.{Rows}
use missive.Cli.Bcast.Stages.{Matches, sequential_from-Matches, choose-off}

sequential_from-next :
    (world : World) (deadline : Option ℕ) (n : ℕ) (member : GroupMember)
    (members : List GroupMember) (view : BcastMemberView) (views : List BcastMemberView)
    → sequential_member world deadline n member ≡ ok view
    → sequential_from world BcastFailurePolicy.proceed deadline (suc n) members ≡ ok views
    → sequential_from world BcastFailurePolicy.proceed deadline n (member ∷ members)
      ≡ ok (view ∷ views)
unfolding sequential_from
sequential_from-next world deadline n member members view views h t =
    rw h (choose-off (not (is_succeeded view.status)) _ _ ∙ rw t refl)

module _ (world : World) (deadline : Option ℕ) (n : ℕ) (member : GroupMember)
    (members : List GroupMember) (before : Rows) (planned : List PlannedMember) where
  abbrev FirstPlanned : Type 0
  FirstPlanned =
      ((view : BcastMemberView) × (later : Rows) × (plan_member world deadline n member
          ≡ ok (early view))
        × (plan_members world deadline (suc n) members ≡ ok (later, planned)))
      ⊎ ((id : Str) × (later : List PlannedMember) × (plan_member world deadline n member
            ≡ ok (ready id))
          × (plan_members world deadline (suc n) members ≡ ok (before, later))
          × (planned ≡ record { index = n; member = member; id = id } ∷ later))

  first_stage :
      (first : Planned) (rest : Stage)
      → plan_member world deadline n member ≡ ok first
      → plan_members world deadline (suc n) members ≡ ok rest
      → ok (file_member n member first rest) ≡ ok (before, planned)
      → FirstPlanned
  first_stage (early view) rest pf pr made =
      inl (view, rest.0, pf, pr ∙ ap (λ after. ok (rest.0, after)) ground arith)
  first_stage (ready id) rest pf pr made =
      inr (id, rest.1, pf, pr ∙ ap (λ rows. ok (rows, rest.1)) ground arith, ground arith)

  plan_members-FirstPlanned :
      plan_members world deadline n (member ∷ members) ≡ ok (before, planned) → FirstPlanned
  unfolding plan_members
  plan_members-FirstPlanned p =
      let (first, pf, more) = >>=-eq-ok (plan_member world deadline n member) _ p in
      let (rest, pr, made) = >>=-eq-ok (plan_members world deadline (suc n) members) _ more in
      first_stage first rest pf pr made

abbrev Runs : World → Option ℕ → ℕ → List GroupMember → Type 0
Runs world deadline n members =
    (views : List BcastMemberView) × (sequential_from world BcastFailurePolicy.proceed deadline n
        members
      ≡ ok views)

join_members-next :
    (world : World) (deadline : Option ℕ) (n : ℕ) (member : GroupMember) (id : Str)
    (later : List PlannedMember) (after : Rows)
    → join_members world deadline (record { index = n; member = member; id = id } ∷ later)
      ≡ ok after
    → (view : BcastMemberView) × (rows : Rows) × (settle_member world deadline n member id
          (world.send n)
        ≡ ok view)
      × (join_members world deadline later ≡ ok rows)
unfolding join_members
join_members-next world deadline n member id later after h =
    let (outcome, sent, more) = >>=-eq-ok (join (world.send n)) _ h in
    let (view, settled, last) =
      >>=-eq-ok (settle_member world deadline n member id outcome) _ more in
    let (rows, made, e) = >>=-eq-ok (join_members world deadline later) _ last in
    let same : world.send n ≡ outcome = ground arith in
    (view, rows, ap (settle_member world deadline n member id) same ∙ settled, made)

sequential_member-ready :
    (world : World) (deadline : Option ℕ) (n : ℕ) (member : GroupMember) (id : Str)
    (view : BcastMemberView)
    → plan_member world deadline n member ≡ ok (ready id)
    → settle_member world deadline n member id (world.send n) ≡ ok view
    → sequential_member world deadline n member ≡ ok view
unfolding sequential_member
sequential_member-ready world deadline n member id view p t = rw p t

sequential_member-early :
    (world : World) (deadline : Option ℕ) (n : ℕ) (member : GroupMember) (view : BcastMemberView)
    → plan_member world deadline n member ≡ ok (early view)
    → sequential_member world deadline n member ≡ ok view
unfolding sequential_member
sequential_member-early world deadline n member view p = rw p refl

-- When both stages come through, so does the sequential run.
join_members-Runs :
    (world : World) (deadline : Option ℕ) (n : ℕ) (members : List GroupMember) (before after : Rows)
    (planned : List PlannedMember)
    → plan_members world deadline n members ≡ ok (before, planned)
    → join_members world deadline planned ≡ ok after
    → Runs world deadline n members
unfolding sequential_from
join_members-Runs world deadline n [] before after planned p j = ([], refl)
join_members-Runs world deadline n (member ∷ members) before after planned p j =
    elim (plan_members-FirstPlanned world deadline n member members before planned p) [
      | inl (view, later, first, rest) ↦
          let (views, e) =
            join_members-Runs world deadline (suc n) members later after planned rest j in
          (
            view ∷ views,
            sequential_from-next world deadline n member members view views
                (sequential_member-early world deadline n member view first) e,
          )
      | inr (id, later, first, rest, cut) ↦
          let (view, rows, settled, joined) =
            join_members-next world deadline n member id later after
              (subst (λ ps. join_members world deadline ps ≡ ok after) cut j) in
          let (views, e) =
            join_members-Runs world deadline (suc n) members before rows later rest joined in
          (
            view ∷ views,
            sequential_from-next world deadline n member members view views
                (sequential_member-ready world deadline n member id view first settled) e,
          )
    ]

sequential-concurrent :
    (world : World) (deadline : Option ℕ) (members : List GroupMember)
    (views : List BcastMemberView)
    → run_bcast_sequential world BcastFailurePolicy.proceed deadline members ≡ ok views
    → run_bcast_concurrent world deadline members ≡ ok views
unfolding run_bcast_concurrent Matches
sequential-concurrent world deadline members views h =
    let (before, planned, after, p, j, f, s) =
      sequential_from-Matches world deadline 0 members views h in
    rw p (rw j (ap ok s))

concurrent_Runs :
    (world : World) (deadline : Option ℕ) (members : List GroupMember)
    (views : List BcastMemberView)
    → run_bcast_concurrent world deadline members ≡ ok views
    → Runs world deadline 0 members
unfolding run_bcast_concurrent
concurrent_Runs world deadline members views h =
    let ((before, planned), p, more) = >>=-eq-ok (plan_members world deadline 0 members) _ h in
    let (after, j, e) = >>=-eq-ok (join_members world deadline planned) _ more in
    join_members-Runs world deadline 0 members before after planned p j

-- With the same answers from outside, reaching the members by threads gives views exactly if reaching
-- them one by one and going on after failures does, and it gives the same views in the same order.
pub run_bcast_concurrent-sequential :
    (world : World) (deadline : Option ℕ) (members : List GroupMember)
    (views : List BcastMemberView)
    → (run_bcast_concurrent world deadline members ≡ ok views)
      ↔ (run_bcast_sequential world BcastFailurePolicy.proceed deadline members ≡ ok views)
run_bcast_concurrent-sequential world deadline members views = (
  λ h.
      let (given, e) = concurrent_Runs world deadline members views h in
      let same : given ≡ views =
        ok-injective (sym (sequential-concurrent world deadline members given e) ∙ h) in
      subst (λ vs. run_bcast_sequential world BcastFailurePolicy.proceed deadline members ≡ ok vs)
        same e,
  sequential-concurrent world deadline members views,
)
