-- ===== src/Router/Examples.antt =====
-- Runs of crates/missive-router/src/lib.rs on three candidates, the second of them the heaviest.
use missive.Router.Match.{
  capability_requirements_present, explain_capability_match, aliases_at, candidate_capability_match,
  missing_requirements_of, compare_indices, capability_decision, missing_flag,
}
use missive.Common.Set.{set_insert, collect_set}
use missive.Router.Labels.{
  validate_labels, normalize_label, missing_labels, normalized_set, intersection_in_required_order,
}
use missive.Common.{
  List, map, ◌↔◌, List, true, ℕ, ◌≡◌, refl, ◌<◌, ◌+◌, Bool, false, none, some, [], ◌∷◌, length,
  get_elem?, ◌==◌, In, arith, ◌⊎◌, count_by, ◌≤◌, ◌*◌,
}
use mathlib.Core.List.{Perm}
use missive.Common.Str.{
  Str, lit, str_eq, str_cmp, trim_start, trim_end, is_whitespace, ends_with, to_ascii_lowercase,
  trim, to_ascii_lowercase_char,
}
use missive.Common.Float.{F64, total_key, is_finite, is_positive}
use missive.Core.Error.{Returns, Result, ok, err, panic, hang}
use missive.Core.Routing.{RoutingPolicyKind}
use missive.Router.Types.{
  RouteCandidate, new_candidate, RoutePlanInput, RoutePlan, plan, validate_input,
  validate_candidates, validate_candidate,
}
use missive.Router.Policies.{
  explain_route, explain_weighted, explain_direct, explain_quorum, explain_fallback,
  explain_round_robin, preferred_index_or_first, single_plan, compare_weights, fallback_indices,
  fallback_decisions,
}
use missive.Router.Plans.{IsConsistent, aliases}
use missive.Router.Plans.Choice.{
  IsHeaviest, explain_weighted-IsHeaviest, explain_round_robin-reaches, Turns,
  explain_direct-selected, explain_quorum-bounds,
}
use missive.Router.Plans.Fallback.{explain_fallback-perm}
use missive.Router.Plans.Rows.{Row}
use missive.Router.Plans.Matching.{IsEligible, IsAhead, meets, explain_capability_match-IsSorted}
use missive.Router.Plans.Totality.{explain_route-Returns}
use missive.Router.Plans.Route.{explain_route-IsConsistent}

abbrev a : RouteCandidate
a = record (new_candidate (lit "a")) { tags = lit "Rust" ∷ [] }

-- 2.0
abbrev b : RouteCandidate
b = record (new_candidate (lit "b")) { weight = 0x4000000000000000 }

abbrev c : RouteCandidate
c = record (new_candidate (lit "c")) { tags = lit "rust " ∷ lit "go" ∷ [] }

abbrev asking : RoutingPolicyKind → RoutePlanInput
asking policy = record {
  policy = policy;
  candidates = a ∷ b ∷ c ∷ [];
  preferred_agent = some (lit "b");
  required_tags = lit "RUST" ∷ [];
  required_capabilities = [];
  required_input_modes = [];
  required_output_modes = [];
  require_streaming = false;
  require_push_notifications = false;
  round_robin_cursor = 5;
  quorum = none;
}

abbrev same_bits : F64 → F64 → Bool
same_bits v w = v == w

abbrev made : Result RoutePlan → RoutePlan
made (ok p) = p
made (err e) = plan (asking RoutingPolicyKind.direct) "" "" [] [] none none
made panic = plan (asking RoutingPolicyKind.direct) "" "" [] [] none none
made hang = plan (asking RoutingPolicyKind.direct) "" "" [] [] none none

abbrev matching : RoutePlanInput
matching = asking RoutingPolicyKind.capability_match

abbrev matched : RoutePlan
matched = made (explain_route same_bits matching)

explain_route-IsConsistent_example : IsConsistent matching matched
unfolding explain_route validate_input validate_candidates validate_candidate is_finite is_positive
    validate_labels normalize_label to_ascii_lowercase trim set_insert str_eq
    to_ascii_lowercase_char explain_capability_match candidate_capability_match
    missing_requirements_of missing_flag capability_requirements_present missing_labels
    normalized_set collect_set str_cmp compare_indices intersection_in_required_order total_key
    aliases_at capability_decision
explain_route-IsConsistent_example = explain_route-IsConsistent same_bits matching matched refl

abbrev weighing : RoutePlanInput
weighing = asking RoutingPolicyKind.weighted

abbrev weighed : RoutePlan
weighed = made (explain_weighted same_bits weighing)

explain_weighted-IsHeaviest_example :
    (i : ℕ) × (d : RouteCandidate) × (get_elem? weighing.candidates i ≡ some d)
    × (weighed.selected ≡ d.alias ∷ [])
    × IsHeaviest weighing.candidates i d
unfolding explain_weighted single_plan compare_weights total_key
explain_weighted-IsHeaviest_example = explain_weighted-IsHeaviest same_bits weighing weighed refl

abbrev preferring : RoutePlanInput
preferring = asking RoutingPolicyKind.direct

abbrev preferred : RoutePlan
preferred = made (explain_direct preferring)

abbrev voting : RoutePlanInput
voting = asking RoutingPolicyKind.quorum

abbrev voted : RoutePlan
voted = made (explain_quorum voting)

abbrev turning : RoutePlanInput
turning = asking RoutingPolicyKind.round_robin

explain_round_robin-reaches_example :
    (k : ℕ) × (last : RoutePlanInput) × (p : RoutePlan) × (k < length turning.candidates)
    × Turns turning k last
    × (explain_round_robin last ≡ ok p)
    × (p.selected ≡ b.alias ∷ [])
explain_round_robin-reaches_example = explain_round_robin-reaches turning 1 b (omega arith) refl

abbrev falling : RoutePlanInput
falling = asking RoutingPolicyKind.fallback

abbrev fallen : RoutePlan
fallen = made (explain_fallback falling)

explain_fallback-perm_example :
    (primary : ℕ) × (d : RouteCandidate) × (get_elem? falling.candidates primary ≡ some d)
    × (((falling.preferred_agent ≡ none) × (primary ≡ 0))
        ⊎ (falling.preferred_agent ≡ some d.alias))
    × (get_elem? fallen.selected 0 ≡ some d.alias)
    × Perm fallen.selected (aliases falling.candidates)
unfolding explain_fallback preferred_index_or_first str_eq aliases_at fallback_indices
    fallback_decisions
explain_fallback-perm_example = explain_fallback-perm falling fallen (omega arith) refl

abbrev filtered : RoutePlan
filtered = made (explain_capability_match matching)

explain_capability_match-IsSorted_example :
    (rows : List Row) × (filtered.selected ≡ map (λ (r : Row). r.candidate.alias) rows)
    × ((r : Row) → In r rows ↔ IsEligible matching r)
    × (length rows ≡ count_by (meets matching) matching.candidates)
    × (capability_requirements_present matching ≡ true
        → (m n : ℕ) (x y : Row) → m < n
        → get_elem? rows m ≡ some x
        → get_elem? rows n ≡ some y
        → IsAhead x y)
unfolding explain_capability_match candidate_capability_match missing_requirements_of missing_flag
    capability_requirements_present missing_labels normalized_set collect_set str_cmp
    compare_indices intersection_in_required_order total_key aliases_at capability_decision
    normalize_label to_ascii_lowercase trim trim_start trim_end is_whitespace ends_with
    to_ascii_lowercase_char set_insert str_eq
explain_capability_match-IsSorted_example = explain_capability_match-IsSorted matching filtered refl

explain_route-Returns_example : Returns (explain_route same_bits turning)
explain_route-Returns_example = explain_route-Returns same_bits turning

explain_direct-selected_example :
    ((a : Str) × (preferring.preferred_agent ≡ some a)
      × (preferred.selected ≡ a ∷ [])
      × In a (aliases preferring.candidates))
    ⊎ ((d : RouteCandidate) × (preferring.preferred_agent ≡ none)
        × (get_elem? preferring.candidates 0 ≡ some d)
        × (preferred.selected ≡ d.alias ∷ []))
unfolding explain_direct single_plan preferred_index_or_first str_eq
explain_direct-selected_example = explain_direct-selected preferring preferred refl

explain_quorum-bounds_example :
    (q : ℕ) × (voted.required_quorum ≡ some q)
    × (1 ≤ q)
    × (q ≤ length voting.candidates)
    × (voted.selected ≡ aliases voting.candidates)
    × ((voting.quorum ≡ some q)
        ⊎ ((voting.quorum ≡ none)
            × (length voting.candidates < 2 * q)
            × (2 * q ≤ length voting.candidates + 2)))
unfolding explain_quorum
explain_quorum-bounds_example = explain_quorum-bounds voting voted refl
