-- ===== src/Router/Plans/Single.antt =====
-- The plans of the policies that select one candidate: crates/missive-router/src/lib.rs,
-- `explain_direct`, `explain_round_robin` and `explain_weighted`.
use missive.Common.{
  ℕ, ◌≡◌, refl, subst, Bool, Option, none, some, [], ◌∷◌, get_elem?, get_elem?-lt, All-map_from,
  map-map_from, arith, String, Option-cases, inl, inr,
}
use missive.Core.Error.{ok}
use missive.Core.Error.Laws.{ok-injective, expect-some}
use missive.Router.Types.{RouteCandidate, RoutePlanInput, RoutePlan}
use missive.Router.Policies.{single_plan}
use missive.Router.Plans.{IsConsistent, count-one}

module _ (input : RoutePlanInput) (i : ℕ) (reason : RouteCandidate → RouteCandidate → Bool → String)
    (next : Option ℕ) (p : RoutePlan) where
  pub single_plan-selected :
      single_plan input i reason next ≡ ok p
      → (c : RouteCandidate) × (get_elem? input.candidates i ≡ some c)
        × (p.selected ≡ c.alias ∷ [])
        × (p.next_round_robin_cursor ≡ next)
        × (p.required_quorum ≡ none)
  unfolding single_plan
  single_plan-selected h = ground arith

  pub single_plan-IsConsistent : single_plan input i reason next ≡ ok p → IsConsistent input p
  unfolding single_plan
  single_plan-IsConsistent h = elim (Option-cases (get_elem? input.candidates i)) [
    | inl out ↦ absurd (ground arith)
    | inr (c, found) ↦ subst (IsConsistent input) (ok-injective (rw found at h)) (record {
      policy_kept = refl;
      total = refl;
      in_order = map-map_from _ _ 0 _ input.candidates (λ j x. refl);
      placed = All-map_from _ 0 _ input.candidates (λ k j x e g. ground arith);
      counted =
          count-one _ i (λ k x. refl) 0 input.candidates (omega arith)
            (omega (arith, get_elem?-lt input.candidates i found));
    })
  ]

pub single_plan-ok :
    (input : RoutePlanInput) (i : ℕ) (reason : RouteCandidate → RouteCandidate → Bool → String)
    (next : Option ℕ) (c : RouteCandidate)
    → get_elem? input.candidates i ≡ some c
    → (p : RoutePlan) × (single_plan input i reason next ≡ ok p)
unfolding single_plan
single_plan-ok input i reason next c found = (_, expect-some (get_elem? input.candidates i) _ found)
