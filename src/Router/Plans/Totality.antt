-- ===== src/Router/Plans/Totality.antt =====
-- `explain_route` of crates/missive-router/src/lib.rs comes back for every input: its indices and its
-- `expect` do not fail.
use missive.Common.{
  ℕ, suc, ◌+◌, ◌<◌, ◌≤◌, ◌≡◌, refl, Bool, true, not, none, some, List, [], ◌∷◌, length,
  get_elem?-some, get_elem?-lt, get_elem?-map_from, map_from, map_from-at, filter_by-In,
  In-filter_by, In, at, In-tail, In-cons, position-In, position, arith, ◌==◌, inl, inr, Bool-cases,
  String, Option, if◌then◌else◌, Option-cases, ◌⊎◌, max_by,
}
use missive.Core.Error.Laws.{fail_if-Returns}
use missive.Core.Error.{Result, ok, err, panic, hang, Returns, MissiveError, validation_error, ◌>>◌}
use missive.Router.Types.{
  decision, validate_input, validate_quorum, validate_candidates, validate_candidate,
  RouteCandidate, RoutePlanInput, RouteDecision,
}
use missive.Router.Policies.{
  explain_quorum, explain_weighted, explain_policy, explain_round_robin, explain_all, explain_route,
  compare_weights, indexed, single_plan, explain_fallback, explain_direct, preferred_index_or_first,
  fallback_indices, fallback_decisions,
}
use missive.Common.Str.{Str, str_eq}
use missive.Common.Float.{F64}
use missive.Common.Set.{Set, set_insert}
use missive.Core.Routing.{RoutingPolicyKind}
use missive.Router.Labels.{validate_from, validate_labels, normalize_label}
use missive.Router.Match.{aliases_at, explain_tag_match}
use missive.Router.Plans.Indices.{explain_capability_match-rows_plan}
use missive.Router.Plans.Choice.{max_by-IsHeaviest}
use missive.Router.Plans.Route.{validate_input-nonempty}
use native.Mathlib.Nat.{mod-lt}
use missive.Router.Plans.Single.{single_plan-ok}
use missive.Router.Plans.Fallback.{preferred_index-lt}

aliases_at-ok :
    (cs : List RouteCandidate) (is : List ℕ)
    → ((i : ℕ) → In i is → i < length cs)
    → (sel : List Str) × (aliases_at cs is ≡ ok sel)
unfolding aliases_at
aliases_at-ok cs [] below = ([], refl)
aliases_at-ok cs (i ∷ is) below =
    let (c, found) = get_elem?-some cs i (below i (at 0 refl)) in
    let (rest, made) = aliases_at-ok cs is (λ j m. below j (In-tail m)) in
    (c.alias ∷ rest, rw (found, made) refl)

fallback_decisions-ok :
    (primary : ℕ) (is : List ℕ) (k : ℕ) (cs : List RouteCandidate)
    → ((j : ℕ) → k ≤ j → j < k + length cs → In j is)
    → (ds : List RouteDecision) × (fallback_decisions primary is k cs ≡ ok ds)
unfolding fallback_decisions
fallback_decisions-ok primary is k [] all = ([], refl)
fallback_decisions-ok primary is k (c ∷ cs) all =
    let (order, found) =
      position-In (λ i. i == k) k is (all k (omega arith) (omega arith)) (ground arith) in
    let (ds, made) =
      fallback_decisions-ok primary is (suc k) cs (λ j l h. all j (omega arith) (omega arith)) in
    (
      decision c true (some order)
            (if k == primary then "primary fallback target" else "fallback candidate") [] []
          ∷ ds,
      rw (found, made) refl,
    )

indices-In :
    (primary j : ℕ) (cs : List RouteCandidate) → j < length cs → In j (fallback_indices primary cs)
unfolding fallback_indices
indices-In primary j cs h =
    let (c, found) = get_elem?-some cs j h in
    elim (Bool-cases (j == primary)) [
      | inl same ↦ at 0 (ground arith)
      | inr other ↦ In-tail (
          In-filter_by (λ i. not (i == primary)) j (map_from 0 (λ i c. i) cs) (ground arith)
            (at j (get_elem?-map_from 0 (λ i (c : RouteCandidate). i) cs j j (omega arith) found)))
    ]

index-lt :
    (j : ℕ) (cs : List RouteCandidate)
    → In j (map_from 0 (λ i (c : RouteCandidate). i) cs)
    → j < length cs
index-lt j cs (at i g) =
    let (k, c, e, found, shape) = map_from-at 0 (λ i (c : RouteCandidate). i) cs i g in
    omega (arith, get_elem?-lt cs i found)

In-indices :
    (primary j : ℕ) (cs : List RouteCandidate)
    → primary < length cs
    → In j (fallback_indices primary cs)
    → j < length cs
unfolding fallback_indices
In-indices primary j cs h m = elim (In-cons j primary _ m) [
  | inl e ↦ omega arith
  | inr later ↦
      let (found, _) = filter_by-In (λ i. not (i == primary)) j (map_from 0 (λ i c. i) cs) later in
      index-lt j cs found
]

preferred_index-cases :
    (input : RoutePlanInput)
    → ((i : ℕ) × (preferred_index_or_first input ≡ ok i))
      ⊎ ((e : MissiveError) × (preferred_index_or_first input ≡ err e))
unfolding preferred_index_or_first
preferred_index-cases input = elim (Option-cases input.preferred_agent) [
  | inl absent ↦ inl (0, ground arith)
  | inr (a, given) ↦
      elim (Option-cases (position (λ (c : RouteCandidate). str_eq c.alias a) input.candidates)) [
        | inl missing ↦ inr (
          validation_error "preferred agent {:?} is not in the route candidate set",
          ground arith,
        )
        | inr (i, found) ↦ inl (i, ground arith)
      ]
]

Returns-ok : {A : Type 0} (r : Result A) {a : A} → r ≡ ok a → Returns r
Returns-ok r e = rw e tt

indexed-max :
    (cs : List RouteCandidate) → 0 < length cs → max_by compare_weights (indexed cs) ≡ none → ⊥
indexed-max [] pos h = omega arith
indexed-max (c ∷ cs) pos h = cc

validate_labels-Returns : (seen : Set) (labels : List Str) → Returns (validate_from seen labels)
unfolding validate_from
validate_labels-Returns seen [] = tt
validate_labels-Returns seen (label ∷ labels) =
    let rest = validate_labels-Returns (set_insert (normalize_label label) seen) labels in
    ground arith

then-Returns : (m next : Result (Unit {0})) → Returns m → Returns next → Returns (m >> next)
then-Returns (ok u) next h g = g
then-Returns (err e) next h g = tt
then-Returns panic next h g = h
then-Returns hang next h g = h

validate_candidates-Returns : (cs : List RouteCandidate) → Returns (validate_candidates cs)
unfolding validate_candidates validate_candidate validate_labels
validate_candidates-Returns [] = tt
validate_candidates-Returns (c ∷ cs) =
    let labels = validate_labels-Returns [] in
    then-Returns _ _
      (then-Returns _ _ (fail_if-Returns _ _) (
        then-Returns _ _ (labels c.tags) (
          then-Returns _ _ (labels c.capabilities)
            (then-Returns _ _ (labels c.input_modes) (labels c.output_modes)))))
      (validate_candidates-Returns cs)

quorum-Returns :
    (quorum : Option ℕ) (n : ℕ)
    → Returns {0} {A = Unit {0}} (elim quorum [ none ↦ ok tt | some q ↦ validate_quorum q n ])
unfolding validate_quorum
quorum-Returns none n = tt
quorum-Returns (some q) n = fail_if-Returns _ _

validate_input-Returns : (input : RoutePlanInput) → Returns (validate_input input)
unfolding validate_input validate_labels
validate_input-Returns input =
    let labels = validate_labels-Returns [] in
    then-Returns _ _ (fail_if-Returns _ _) (
      then-Returns _ _ (validate_candidates-Returns input.candidates) (
        then-Returns _ _ (labels input.required_tags) (
          then-Returns _ _ (labels input.required_capabilities) (
            then-Returns _ _ (labels input.required_input_modes) (
              then-Returns _ _ (labels input.required_output_modes)
                (quorum-Returns input.quorum (length input.candidates)))))))

Returns-cases :
    (r : Result (Unit {0})) → Returns r → (r ≡ ok tt) ⊎ ((e : MissiveError) × (r ≡ err e))
Returns-cases (ok u) h = inl refl
Returns-cases (err e) h = inr (e, refl)
Returns-cases panic h = absurd h
Returns-cases hang h = absurd h

validate_input-cases :
    (input : RoutePlanInput)
    → (validate_input input ≡ ok tt) ⊎ ((e : MissiveError) × (validate_input input ≡ err e))
validate_input-cases input = Returns-cases (validate_input input) (validate_input-Returns input)

module _ (input : RoutePlanInput) (pos : 0 < length input.candidates) where
  single_plan-Returns :
      (i : ℕ) (reason : RouteCandidate → RouteCandidate → Bool → String) (next : Option ℕ)
      → i < length input.candidates
      → Returns (single_plan input i reason next)
  single_plan-Returns i reason next h =
      let (c, found) = get_elem?-some input.candidates i h in
      let (p, made) = single_plan-ok input i reason next c found in Returns-ok _ made

  explain_fallback-Returns : Returns (explain_fallback input)
  unfolding explain_fallback
  explain_fallback-Returns = elim (preferred_index-cases input) [
    | inl (i, e) ↦
        let below = preferred_index-lt input i pos e in
        let indices = fallback_indices i input.candidates in
        let (sel, chosen) =
          aliases_at-ok input.candidates indices (λ j m. In-indices i j input.candidates below m) in
        let (ds, made) =
          fallback_decisions-ok i indices 0 input.candidates
            (λ j l h. indices-In i j input.candidates (omega arith)) in
        rw (e, chosen, made) tt
    | inr (e, refused) ↦ rw refused tt
  ]

  explain_direct-Returns : Returns (explain_direct input)
  unfolding explain_direct
  explain_direct-Returns = elim (preferred_index-cases input) [
    | inl (i, e) ↦ rw e (single_plan-Returns i _ _ (preferred_index-lt input i pos e))
    | inr (e, refused) ↦ rw refused tt
  ]

  explain_quorum-Returns : Returns (explain_quorum input)
  unfolding explain_quorum validate_quorum
  explain_quorum-Returns = ground arith

  explain_weighted-Returns :
      (same_weight : F64 → F64 → Bool) → Returns (explain_weighted same_weight input)
  unfolding explain_weighted
  explain_weighted-Returns same_weight =
      elim (Option-cases (max_by compare_weights (indexed input.candidates))) [
        | inl nothing ↦ absurd (indexed-max input.candidates pos nothing)
        | inr ((i, c), best) ↦
            let (found, _) = max_by-IsHeaviest input.candidates i c best in
            rw best (single_plan-Returns i _ _ (get_elem?-lt input.candidates i found))
      ]

  explain_policy-Returns :
      (same_weight : F64 → F64 → Bool) (k : RoutingPolicyKind)
      → Returns (explain_policy same_weight k input)
  unfolding explain_policy explain_round_robin explain_all explain_tag_match
  explain_policy-Returns same_weight RoutingPolicyKind.direct = explain_direct-Returns
  explain_policy-Returns same_weight RoutingPolicyKind.capability_match =
      Returns-ok _ (explain_capability_match-rows_plan input)
  explain_policy-Returns same_weight RoutingPolicyKind.tag_match = tt
  explain_policy-Returns same_weight RoutingPolicyKind.round_robin =
      single_plan-Returns _ _ _ (mod-lt input.round_robin_cursor pos)
  explain_policy-Returns same_weight RoutingPolicyKind.weighted =
      explain_weighted-Returns same_weight
  explain_policy-Returns same_weight RoutingPolicyKind.broadcast = tt
  explain_policy-Returns same_weight RoutingPolicyKind.first_success = tt
  explain_policy-Returns same_weight RoutingPolicyKind.quorum = explain_quorum-Returns
  explain_policy-Returns same_weight RoutingPolicyKind.fallback = explain_fallback-Returns

-- Every input, valid or not, is answered by a plan or by an error value: no index of the code is out
-- of bounds, no `expect` fails, and no `unreachable!` arm is reached.
pub explain_route-Returns :
    (same_weight : F64 → F64 → Bool) (input : RoutePlanInput)
    → Returns (explain_route same_weight input)
unfolding explain_route
explain_route-Returns same_weight input = elim (validate_input-cases input) [
  | inl valid ↦
      rw valid (
        explain_policy-Returns input (validate_input-nonempty input valid) same_weight input.policy)
  | inr (e, refused) ↦ rw refused tt
]
