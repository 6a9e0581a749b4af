-- ===== src/Cli/Bcast/Stages.antt =====
-- crates/missive-cli/src/bcast.rs: what comes of one member in the concurrent run, and in both stages of
-- it what comes of all.
use missive.Common.{
  ℕ, suc, ◌≡◌, refl, sym, ap, ◌∙◌, true, false, List, [], ◌∷◌, ◌++◌, map, arith, Bool, not, ◌&&◌,
  ◌⊎◌, inl, inr, subst, sort_by, Option,
}
use missive.Core.Error.{Result, ok}
use missive.Core.Error.Laws.{>>=-eq-ok}
use missive.Cli.Barrier.{GroupMember}
use missive.Common.Str.{Str}
use missive.Cli.Bcast.{
  BcastFailurePolicy, BcastMemberView, World, is_succeeded, persist_member_result,
}
use missive.Cli.Bcast.Runs.{
  Planned, early, ready, plan_member, settle_member, sequential_member, sequential_from,
  PlannedMember, plan_members, join, join_members, compare_index, drop_index,
}
use missive.Cli.Bcast.Rows.{
  Rows, From, From-weaken, sort_by-From, insert_by-front, sort_by-least, From-insert,
}

-- The rows of both stages, in the order of the members, are the views.
unfoldable pub Matches : World → Option ℕ → ℕ → List GroupMember → List BcastMemberView → Type 0
Matches world deadline n members views =
    (before : Rows) × (planned : List PlannedMember) × (after : Rows) × (plan_members world deadline
        n members
      ≡ ok (before, planned))
    × (join_members world deadline planned ≡ ok after)
    × From n (before ++ after)
    × (map drop_index (sort_by compare_index (before ++ after)) ≡ views)

pub join-ok :
    (world : World) (deadline : Option ℕ) (n : ℕ) (member : GroupMember) (id : Str)
    (view : BcastMemberView)
    → settle_member world deadline n member id (world.send n) ≡ ok view
    → join (world.send n) ≡ ok (world.send n)
unfolding settle_member persist_member_result
join-ok world deadline n member id view h = ground arith

pub Matches-early :
    (world : World) (deadline : Option ℕ) (n : ℕ) (member : GroupMember)
    (members : List GroupMember) (view : BcastMemberView) (views : List BcastMemberView)
    → plan_member world deadline n member ≡ ok (early view)
    → Matches world deadline (suc n) members views
    → Matches world deadline n (member ∷ members) (view ∷ views)
unfolding plan_members Matches
Matches-early world deadline n member members view views e (before, planned, after, p, j, f, s) = (
  (n, view) ∷ before,
  planned,
  after,
  rw e (rw p refl),
  j,
  (omega arith, From-weaken n _ f),
  ap (map drop_index) (insert_by-front n view _ (sort_by-From (suc n) _ f)) ∙ ap (◌∷◌ view) s,
)

pub Matches-ready :
    (world : World) (deadline : Option ℕ) (n : ℕ) (member : GroupMember)
    (members : List GroupMember) (id : Str) (view : BcastMemberView) (views : List BcastMemberView)
    → plan_member world deadline n member ≡ ok (ready id)
    → settle_member world deadline n member id (world.send n) ≡ ok view
    → Matches world deadline (suc n) members views
    → Matches world deadline n (member ∷ members) (view ∷ views)
unfolding plan_members join_members Matches
Matches-ready world deadline n member members id view views e t
      (before, planned, after, p, j, f, s) =
    (
      before,
      record { index = n; member = member; id = id } ∷ planned,
      (n, view) ∷ after,
      rw e (rw p refl),
      rw (join-ok world deadline n member id view t) (rw t (rw j refl)),
      From-insert n view before after f,
      ap (map drop_index) (sort_by-least n view before after f) ∙ ap (◌∷◌ view) s,
    )

-- How the run reaches its first member, and what is left.
unfoldable pub FirstOf :
    World → Option ℕ → ℕ → GroupMember → List GroupMember → List BcastMemberView → Type 0
FirstOf world deadline n member members views =
    (view : BcastMemberView) × (later : List BcastMemberView) × (views ≡ view ∷ later)
    × (sequential_from world BcastFailurePolicy.proceed deadline (suc n) members ≡ ok later)
    × ((plan_member world deadline n member ≡ ok (early view))
        ⊎ ((id : Str) × (plan_member world deadline n member ≡ ok (ready id))
            × (settle_member world deadline n member id (world.send n) ≡ ok view)))

module _ (world : World) (deadline : Option ℕ) (n : ℕ) (member : GroupMember)
    (view : BcastMemberView) where
  abbrev Ways : Result Planned → Type 0
  Ways plan =
      (plan ≡ ok (early view))
      ⊎ ((id : Str) × (plan ≡ ok (ready id))
          × (settle_member world deadline n member id (world.send n) ≡ ok view))

  Ways-planned :
      (planned : Planned)
      → elim planned [
        | early view ↦ ok view
        | ready id ↦ settle_member world deadline n member id (world.send n)
      ]
        ≡ ok view
      → Ways (ok planned)
  Ways-planned (early done) h = inl ground arith
  Ways-planned (ready id) h = inr (id, refl, h)

  sequential_member-Ways :
      sequential_member world deadline n member ≡ ok view
      → Ways (plan_member world deadline n member)
  unfolding sequential_member
  sequential_member-Ways h =
      let (planned, p, e) = >>=-eq-ok (plan_member world deadline n member) _ h in
      subst Ways (sym p) (Ways-planned planned e)

pub choose-off {ℓ} :
    {A : Type ℓ} (b : Bool) (x y : A) → elim (b && false) [ true ↦ x | false ↦ y ] ≡ y
choose-off true x y = refl
choose-off false x y = refl

pub sequential_from-FirstOf :
    (world : World) (deadline : Option ℕ) (n : ℕ) (member : GroupMember)
    (members : List GroupMember) (views : List BcastMemberView)
    → sequential_from world BcastFailurePolicy.proceed deadline n (member ∷ members) ≡ ok views
    → FirstOf world deadline n member members views
unfolding sequential_from FirstOf
sequential_from-FirstOf world deadline n member members views h =
    let (view, made, rest) = >>=-eq-ok (sequential_member world deadline n member) _ h in
    let (later, went, e) =
      >>=-eq-ok (sequential_from world BcastFailurePolicy.proceed deadline (suc n) members) _
        (sym (choose-off (not (is_succeeded view.status)) _ _) ∙ rest) in
    (view, later, ground arith, went, sequential_member-Ways world deadline n member view made)

pub sequential_from-Matches :
    (world : World) (deadline : Option ℕ) (n : ℕ) (members : List GroupMember)
    (views : List BcastMemberView)
    → sequential_from world BcastFailurePolicy.proceed deadline n members ≡ ok views
    → Matches world deadline n members views
unfolding sequential_from Matches plan_members join_members FirstOf
sequential_from-Matches world deadline n [] views h = ([], [], [], refl, refl, tt, ground arith)
sequential_from-Matches world deadline n (member ∷ members) views h =
    let (view, later, e, went, ways) =
      sequential_from-FirstOf world deadline n member members views h in
    let matched = sequential_from-Matches world deadline (suc n) members later went in
    subst (Matches world deadline n (member ∷ members)) (sym e) (elim ways [
      | inl p ↦ Matches-early world deadline n member members view later p matched
      | inr (id, p, t) ↦ Matches-ready world deadline n member members id view later p t matched
    ])
