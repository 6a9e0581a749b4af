-- ===== src/Router/Plans/Route.antt =====
-- `explain_route` of crates/missive-router/src/lib.rs, over every policy.
use missive.Common.{
  ◌<◌, ◌≡◌, subst, Bool, false, none, List, [], ◌∷◌, length, arith, is_empty, max_by,
}
use missive.Common.Float.{F64}
use missive.Core.Error.{ok, expect}
use missive.Core.Error.Laws.{>>=-eq-ok, ok-injective}
use missive.Core.Routing.{RoutingPolicyKind}
use missive.Router.Types.{RoutePlanInput, RoutePlan, validate_input, validate_quorum}
use missive.Router.Policies.{
  explain_route, explain_policy, explain_direct, explain_round_robin, explain_weighted, explain_all,
  explain_quorum, preferred_index_or_first, quorum_or_majority, compare_weights, indexed,
}
use missive.Router.Plans.{IsConsistent}
use missive.Router.Plans.Single.{single_plan-IsConsistent}
use missive.Router.Plans.Every.{all_plan-IsConsistent}
use missive.Router.Plans.Fallback.{explain_fallback-IsConsistent}
use missive.Router.Plans.Filter.{
  explain_capability_match-IsConsistent, explain_tag_match-IsConsistent,
}

nonempty {ℓ} : {A : Type ℓ} (xs : List A) → is_empty xs ≡ false → 0 < length xs
nonempty [] h = ground arith
nonempty (x ∷ xs) h = omega arith

pub validate_input-nonempty :
    (input : RoutePlanInput) → validate_input input ≡ ok tt → 0 < length input.candidates
unfolding validate_input
validate_input-nonempty input h = nonempty input.candidates (ground arith)

module _ (same_weight : F64 → F64 → Bool) (input : RoutePlanInput) (p : RoutePlan) where
  explain_policy-IsConsistent :
      (k : RoutingPolicyKind)
      → 0 < length input.candidates
      → explain_policy same_weight k input ≡ ok p
      → IsConsistent input p
  unfolding explain_policy explain_direct explain_round_robin explain_weighted explain_all
      explain_quorum
  explain_policy-IsConsistent RoutingPolicyKind.direct pos h =
      let (i, e, made) = >>=-eq-ok (preferred_index_or_first input) _ h in
      single_plan-IsConsistent input i _ _ p made
  explain_policy-IsConsistent RoutingPolicyKind.capability_match pos h =
      explain_capability_match-IsConsistent input p h
  explain_policy-IsConsistent RoutingPolicyKind.tag_match pos h =
      explain_tag_match-IsConsistent input p h
  explain_policy-IsConsistent RoutingPolicyKind.round_robin pos h =
      single_plan-IsConsistent input _ _ _ p h
  explain_policy-IsConsistent RoutingPolicyKind.weighted pos h =
      let (best, e, made) =
        >>=-eq-ok (expect (max_by compare_weights (indexed input.candidates))) _ h in
      single_plan-IsConsistent input _ _ _ p made
  explain_policy-IsConsistent RoutingPolicyKind.broadcast pos h =
      subst (IsConsistent input) (ok-injective h) (all_plan-IsConsistent input _ _ none)
  explain_policy-IsConsistent RoutingPolicyKind.first_success pos h =
      subst (IsConsistent input) (ok-injective h) (all_plan-IsConsistent input _ _ none)
  explain_policy-IsConsistent RoutingPolicyKind.quorum pos h =
      let (u, e, made) =
        >>=-eq-ok (validate_quorum (quorum_or_majority input) (length input.candidates)) _ h in
      subst (IsConsistent input) (ok-injective made) (all_plan-IsConsistent input _ _ _)
  explain_policy-IsConsistent RoutingPolicyKind.fallback pos h =
      explain_fallback-IsConsistent input p pos h

  -- Whatever the policy, a plan that `explain_route` gives agrees with itself and with its input:
  -- it keeps the policy and the number of candidates; its decisions are about the candidates, in
  -- their order; a decision with an order is selected and names the alias at that place of the
  -- selection, one without is not selected; and there are as many selected decisions as selected
  -- aliases.
  pub explain_route-IsConsistent : explain_route same_weight input ≡ ok p → IsConsistent input p
  unfolding explain_route
  explain_route-IsConsistent h =
      let (u, valid, made) = >>=-eq-ok (validate_input input) _ h in
      explain_policy-IsConsistent input.policy (validate_input-nonempty input valid) made
