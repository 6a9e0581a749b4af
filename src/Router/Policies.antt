-- ===== src/Router/Policies.antt =====
-- crates/missive-router/src/lib.rs: the policies that select by position, weight or order, and
-- `explain_route`.
use missive.Common.{
  ℕ, suc, ◌+◌, ◌%◌, ◌/◌, String, Bool, true, not, Option, none, some, List, [], ◌∷◌, map, length,
  if◌then◌else◌, filter_by, position, max_by, map_from, compare, Ordering, ◌==◌, ltb, get_elem?,
}
use missive.Common.Str.{str_eq}
use missive.Common.Float.{F64, total_cmp}
use missive.Core.Error.{Result, ok, ◌>>=◌, ◌>>◌, expect, ok_or, validation_error}
use missive.Core.Routing.{RoutingPolicyKind}
use missive.Router.Types.{
  RouteCandidate, RoutePlanInput, RouteDecision, RoutePlan, plan, decision, validate_input,
  validate_quorum,
}
use missive.Router.Match.{then_with, aliases_at, explain_capability_match, explain_tag_match}

unfoldable pub preferred_index_or_first : RoutePlanInput → Result ℕ
preferred_index_or_first input = elim input.preferred_agent [
  | none ↦ ok 0
  | some preferred ↦
      ok_or (position (λ (c : RouteCandidate). str_eq c.alias preferred) input.candidates)
        (validation_error "preferred agent {:?} is not in the route candidate set")
]

-- The plan of a policy that selects one candidate, where the index panics out of bounds. `reason`
-- is given the selected candidate, a candidate, and whether that is the selected one.
unfoldable pub single_plan :
    RoutePlanInput
    → ℕ
    → (RouteCandidate → RouteCandidate → Bool → String)
    → Option ℕ
    → Result RoutePlan
unfolding plan decision
single_plan input selected_index reason next = do
  selected ← expect (get_elem? input.candidates selected_index)
  ok (
      plan input "single" "selected" (selected.alias ∷ [])
        (map_from 0
          (λ index c.
            let is_selected = index == selected_index in
            decision c is_selected (if is_selected then some 0 else none)
              (reason selected c is_selected) [] [])
          input.candidates)
        none next)

unfoldable pub explain_direct : RoutePlanInput → Result RoutePlan
explain_direct input = do
  selected_index ← preferred_index_or_first input
  single_plan input selected_index
      (λ selected c is_selected.
        if is_selected
        then elim input.preferred_agent [
          | some a ↦ "preferred direct target"
          | none ↦ "first candidate selected by direct policy"
        ]
        else "not selected by direct policy")
      none

-- `saturating_add(1)` on a u64.
abbrev pub next_cursor : ℕ → ℕ
next_cursor cursor = if ltb cursor 0xFFFFFFFFFFFFFFFF then cursor + 1 else cursor

unfoldable pub explain_round_robin : RoutePlanInput → Result RoutePlan
explain_round_robin input =
    single_plan input (input.round_robin_cursor % length input.candidates)
      (λ selected c is_selected.
        if is_selected then "selected by round-robin cursor" else "not selected for this cursor")
      (some (next_cursor input.round_robin_cursor))

abbrev pub indexed : List RouteCandidate → List (ℕ × RouteCandidate)
indexed = map_from 0 (λ i c. (i, c))

unfoldable pub compare_weights : ℕ × RouteCandidate → ℕ × RouteCandidate → Ordering
compare_weights (i, left) (j, right) = then_with (total_cmp left.weight right.weight) (compare j i)

-- `same_weight` stands for `(candidate.weight - selected_weight).abs() < f64::EPSILON`, which has no
-- part in the choice, only in the reason that is given.
module _ (same_weight : F64 → F64 → Bool) where
  unfoldable pub explain_weighted : RoutePlanInput → Result RoutePlan
  explain_weighted input = do
    best ← expect (max_by compare_weights (indexed input.candidates))
    single_plan input best.0
        (λ selected c is_selected.
          if is_selected
          then "highest weight selected; ties keep deterministic candidate order"
          else if same_weight c.weight selected.weight
          then "same weight as selected candidate but later in deterministic order"
          else "lower weight than selected candidate")
        none

-- The plan of a policy that selects every candidate in order.
unfoldable pub all_plan : RoutePlanInput → String → String → Option ℕ → RoutePlan
unfolding plan decision
all_plan input mode reason quorum =
    plan input mode "selected" (map (λ (c : RouteCandidate). c.alias) input.candidates)
      (map_from 0 (λ index c. decision c true (some index) reason [] []) input.candidates) quorum
      none

unfoldable pub explain_all : RoutePlanInput → String → String → Result RoutePlan
unfolding all_plan
explain_all input mode reason = ok (all_plan input mode reason none)

unfoldable pub quorum_or_majority : RoutePlanInput → ℕ
quorum_or_majority input = elim input.quorum [ some q ↦ q | none ↦ length input.candidates / 2 + 1 ]

unfoldable pub explain_quorum : RoutePlanInput → Result RoutePlan
unfolding quorum_or_majority validate_quorum all_plan
explain_quorum input = do
  let quorum = quorum_or_majority input
  validate_quorum quorum (length input.candidates)
  ok (all_plan input "quorum" "candidate participates in quorum attempt set" (some quorum))

-- The primary index, then the other indices in order.
unfoldable pub fallback_indices : ℕ → List RouteCandidate → List ℕ
fallback_indices primary cs =
    primary ∷ filter_by (λ i. not (i == primary)) (map_from 0 (λ i c. i) cs)

unfoldable pub fallback_decisions :
    ℕ → List ℕ → ℕ → List RouteCandidate → Result (List RouteDecision)
unfolding decision
fallback_decisions primary indices index [] = ok []
fallback_decisions primary indices index (c ∷ cs) =
    let rest = fallback_decisions primary indices (suc index) cs in
    expect (position (λ i. i == index) indices) >>= λ order. rest >>= λ decisions. ok (
      decision c true (some order)
        (if index == primary then "primary fallback target" else "fallback candidate") [] []
      ∷ decisions)

unfoldable pub explain_fallback : RoutePlanInput → Result RoutePlan
unfolding plan
explain_fallback input = do
  primary ← preferred_index_or_first input
  let indices = fallback_indices primary input.candidates
  selected ← aliases_at input.candidates indices
  decisions ← fallback_decisions primary indices 0 input.candidates
  ok (plan input "ordered_attempts" "selected" selected decisions none none)

module _ (same_weight : F64 → F64 → Bool) where
  unfoldable pub explain_policy : RoutingPolicyKind → RoutePlanInput → Result RoutePlan
  explain_policy RoutingPolicyKind.direct input = explain_direct input
  explain_policy RoutingPolicyKind.capability_match input = explain_capability_match input
  explain_policy RoutingPolicyKind.tag_match input = explain_tag_match input
  explain_policy RoutingPolicyKind.round_robin input = explain_round_robin input
  explain_policy RoutingPolicyKind.weighted input = explain_weighted same_weight input
  explain_policy RoutingPolicyKind.broadcast input = explain_all input "all" "broadcast"
  explain_policy RoutingPolicyKind.first_success input =
      explain_all input "ordered_attempts" "first-success-attempt-order"
  explain_policy RoutingPolicyKind.quorum input = explain_quorum input
  explain_policy RoutingPolicyKind.fallback input = explain_fallback input

  unfoldable pub explain_route : RoutePlanInput → Result RoutePlan
  unfolding explain_policy
  explain_route input = validate_input input >> explain_policy input.policy input
