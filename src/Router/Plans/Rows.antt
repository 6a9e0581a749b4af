-- ===== src/Router/Plans/Rows.antt =====
-- A second form of `explain_capability_match` of crates/missive-router/src/lib.rs, without indices:
-- each candidate is kept with its index and its outcome.
use missive.Common.{
  ℕ, ◌+◌, String, Bool, not, ◌&&◌, Option, none, some, List, [], ◌∷◌, ◌++◌, map, length,
  if◌then◌else◌, filter_by, position, sort_by, map_from, compare, Ordering, ◌==◌, is_empty,
}
use missive.Common.Str.{Str, lit}
use missive.Common.Float.{total_cmp}
use missive.Router.Labels.{normalized_set, intersection_in_required_order, missing_labels}
use missive.Router.Types.{
  RouteCandidate, RoutePlanInput, RouteDecision, RoutePlan, plan, decision_with_details,
}
use missive.Router.Match.{
  CapabilityMatchOutcome, is_true, flag_score, capability_requirements_present, capability_reason,
  then_with, match_status,
}

unfoldable pub flag_missing : Bool → Option Bool → String → String → List Str
flag_missing require supports said_false unknown =
    if require && not (is_true supports)
    then elim supports [ none ↦ lit unknown ∷ [] | some b ↦ lit said_false ∷ [] ]
    else []

unfoldable pub missing_of : RoutePlanInput → RouteCandidate → List Str
missing_of input c =
    missing_labels (lit "tag") input.required_tags (normalized_set c.tags)
    ++ (missing_labels (lit "capability") input.required_capabilities
          (normalized_set c.capabilities)
        ++ (missing_labels (lit "input_mode") input.required_input_modes
              (normalized_set c.input_modes)
            ++ (missing_labels (lit "output_mode") input.required_output_modes
                  (normalized_set c.output_modes)
                ++ (flag_missing input.require_streaming c.supports_streaming "streaming:false"
                      "streaming:unknown"
                    ++ flag_missing input.require_push_notifications c.supports_push_notifications
                        "push_notifications:false" "push_notifications:unknown"))))

unfoldable pub outcome_of : RoutePlanInput → RouteCandidate → CapabilityMatchOutcome
outcome_of input c =
    let matched_tags = intersection_in_required_order input.required_tags (normalized_set c.tags) in
    let matched_capabilities =
      intersection_in_required_order input.required_capabilities (normalized_set c.capabilities) in
    let matched_input_modes =
      intersection_in_required_order input.required_input_modes (normalized_set c.input_modes) in
    let matched_output_modes =
      intersection_in_required_order input.required_output_modes (normalized_set c.output_modes) in
    let missing = missing_of input c in
    record {
      matches = is_empty missing;
      matched_tags = matched_tags;
      matched_capabilities = matched_capabilities;
      matched_input_modes = matched_input_modes;
      matched_output_modes = matched_output_modes;
      missing_requirements = missing;
      score =
          length matched_tags
          + length matched_capabilities
          + length matched_input_modes
          + length matched_output_modes
          + flag_score input.require_streaming c.supports_streaming
          + flag_score input.require_push_notifications c.supports_push_notifications;
    }

-- A candidate with its index and its outcome.
pub record Row : Type 0 where
  pub index : ℕ
  pub candidate : RouteCandidate
  pub outcome : CapabilityMatchOutcome

unfoldable pub compare_rows : Row → Row → Ordering
compare_rows left right = then_with (compare right.outcome.score left.outcome.score) (
    then_with (total_cmp right.candidate.weight left.candidate.weight)
      (compare left.index right.index))

unfoldable pub capability_rows : RoutePlanInput → List Row
capability_rows input =
    map_from 0 (λ i c. record { index = i; candidate = c; outcome = outcome_of input c })
      input.candidates

unfoldable pub selected_rows : RoutePlanInput → List Row
selected_rows input =
    let eligible = filter_by (λ (r : Row). r.outcome.matches) (capability_rows input) in
    if capability_requirements_present input then sort_by compare_rows eligible else eligible

unfoldable pub row_decision : RoutePlanInput → List Row → Row → RouteDecision
unfolding decision_with_details
row_decision input rows row =
    let outcome = row.outcome in
    decision_with_details row.candidate outcome.matches
      (position (λ (r : Row). r.index == row.index) rows)
      (capability_reason outcome.matches (capability_requirements_present input)
        outcome.missing_requirements)
      (record {
        matched_tags = outcome.matched_tags;
        matched_capabilities = outcome.matched_capabilities;
        matched_input_modes = outcome.matched_input_modes;
        matched_output_modes = outcome.matched_output_modes;
        missing_requirements = outcome.missing_requirements;
      })

unfoldable pub rows_plan : RoutePlanInput → RoutePlan
unfolding plan
rows_plan input =
    let rows = selected_rows input in
    let selected = map (λ (r : Row). r.candidate.alias) rows in
    plan input "filter" (match_status selected) selected
      (map (row_decision input rows) (capability_rows input)) none none

abbrev pub row_at : RoutePlanInput → ℕ → RouteCandidate → Row
row_at input i c = record { index = i; candidate = c; outcome = outcome_of input c }
