-- ===== src/Router/Plans/Every.antt =====
-- The plans of the policies that select every candidate: crates/missive-router/src/lib.rs,
-- `explain_all` and `explain_quorum`.
use missive.Common.{
  ℕ, suc, ◌≡◌, refl, Option, List, [], ◌∷◌, length, get_elem?-map, All-map_from, map-map_from,
  arith, String, ap, sym, ◌∙◌,
}
use missive.Router.Types.{RouteCandidate, RoutePlanInput}
use missive.Router.Policies.{all_plan}
use missive.Router.Plans.{IsConsistent, aliases, count-all}

length-aliases : (cs : List RouteCandidate) → length (aliases cs) ≡ length cs
length-aliases [] = refl
length-aliases (c ∷ cs) = ap suc (length-aliases cs)

pub all_plan-IsConsistent :
    (input : RoutePlanInput) (mode reason : String) (quorum : Option ℕ)
    → IsConsistent input (all_plan input mode reason quorum)
unfolding all_plan
all_plan-IsConsistent input mode reason quorum = record {
  policy_kept = refl;
  total = refl;
  in_order = map-map_from _ _ 0 _ input.candidates (λ j x. refl);
  placed = All-map_from _ 0 _ input.candidates (λ k j x e g. (
    refl,
    get_elem?-map (λ (c : RouteCandidate). c.alias) input.candidates j {x = x}
        (let e' : j ≡ k = omega arith in rw e' g),
  ));
  counted = count-all _ 0 input.candidates (λ k x. refl) ∙ sym (length-aliases input.candidates);
}
