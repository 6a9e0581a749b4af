-- ===== src/Router/Match.antt =====
-- crates/missive-router/src/lib.rs: the policies that filter, by capabilities and by tags.
use missive.Common.{
  ℕ, suc, ◌+◌, String, Bool, true, false, not, ◌&&◌, ◌||◌, Option, none, some, List, [], ◌∷◌, ◌++◌,
  map, is_empty, length, any, if◌then◌else◌, filter_by, position, compare, get_elem?, is_gt,
  Ordering, ◌==◌,
}
use missive.Common.Str.{Str, lit, ends_with}
use missive.Common.Float.{total_cmp}
use missive.Common.Set.{is_subset}
use missive.Core.Error.{Result, ok, panic, expect, ◌>>=◌}
use missive.Router.Labels.{normalized_set, intersection_in_required_order, missing_labels}
use missive.Router.Types.{
  RouteCandidate, RoutePlanInput, RouteDecision, RoutePlan, plan, decision, decision_with_details,
}

pub record CapabilityMatchOutcome : Type 0 where
  pub matches : Bool
  pub matched_tags : List Str
  pub matched_capabilities : List Str
  pub matched_input_modes : List Str
  pub matched_output_modes : List Str
  pub missing_requirements : List Str
  pub score : ℕ

abbrev pub is_true : Option Bool → Bool
is_true (some true) = true
is_true _ = false

-- What an unmet flag pushes onto `missing_requirements`. The arm for `Some(true)` is `unreachable!`.
unfoldable pub missing_flag : Bool → Option Bool → String → String → Result (List Str)
missing_flag require supports said_false unknown =
    if require && not (is_true supports)
    then elim supports [
      | none ↦ ok (lit unknown ∷ [])
      | some said ↦ elim said [ true ↦ panic | false ↦ ok (lit said_false ∷ []) ]
    ]
    else ok []

abbrev pub flag_score : Bool → Option Bool → ℕ
flag_score require supports = if require && is_true supports then 1 else 0

unfoldable pub missing_requirements_of : RoutePlanInput → RouteCandidate → Result (List Str)
missing_requirements_of input c = do
  streaming ←
      missing_flag input.require_streaming c.supports_streaming "streaming:false"
        "streaming:unknown"
  push ←
      missing_flag input.require_push_notifications c.supports_push_notifications
        "push_notifications:false" "push_notifications:unknown"
  ok (
      missing_labels (lit "tag") input.required_tags (normalized_set c.tags)
      ++ (missing_labels (lit "capability") input.required_capabilities
            (normalized_set c.capabilities)
          ++ (missing_labels (lit "input_mode") input.required_input_modes
                (normalized_set c.input_modes)
              ++ (missing_labels (lit "output_mode") input.required_output_modes
                    (normalized_set c.output_modes)
                  ++ (streaming ++ push)))))

unfoldable pub candidate_capability_match :
    RoutePlanInput → RouteCandidate → Result CapabilityMatchOutcome
candidate_capability_match input c =
    let matched_tags = intersection_in_required_order input.required_tags (normalized_set c.tags) in
    let matched_capabilities =
      intersection_in_required_order input.required_capabilities (normalized_set c.capabilities) in
    let matched_input_modes =
      intersection_in_required_order input.required_input_modes (normalized_set c.input_modes) in
    let matched_output_modes =
      intersection_in_required_order input.required_output_modes (normalized_set c.output_modes) in
    missing_requirements_of input c >>= λ missing. ok (record {
      matches = is_empty missing;
      matched_tags = matched_tags;
      matched_capabilities = matched_capabilities;
      matched_input_modes = matched_input_modes;
      matched_output_modes = matched_output_modes;
      missing_requirements = missing;
      score =
          length matched_tags
          + length matched_capabilities
          + length matched_input_modes
          + length matched_output_modes
          + flag_score input.require_streaming c.supports_streaming
          + flag_score input.require_push_notifications c.supports_push_notifications;
    })

unfoldable pub capability_requirements_present : RoutePlanInput → Bool
capability_requirements_present input =
    not (is_empty input.required_tags)
    || (not (is_empty input.required_capabilities)
        || (not (is_empty input.required_input_modes)
            || (not (is_empty input.required_output_modes)
                || (input.require_streaming || input.require_push_notifications))))

unfoldable pub capability_reason : Bool → Bool → List Str → String
capability_reason matches has_requirements missing =
    if matches
    then if has_requirements
      then "candidate satisfies capability, tag, mode, streaming, and push requirements; ties use score, weight, then deterministic candidate order"
      else "no required capabilities, tags, modes, streaming, or push support; candidate remains eligible"
    else if any (λ value. ends_with value (lit ":unknown")) missing
    then "candidate is missing required Agent Card capability data; refresh the Agent Card cache and inspect missing_requirements"
    else "candidate is missing one or more capability requirements; inspect missing_requirements"

abbrev pub then_with : Ordering → Ordering → Ordering
then_with Ordering.eq o = o
then_with Ordering.lt o = Ordering.lt
then_with Ordering.gt o = Ordering.gt

-- `then_with` compares further only after an equal result.
abbrev pub and_then_with : Ordering → Result Ordering → Result Ordering
and_then_with Ordering.eq next = next
and_then_with Ordering.lt next = ok Ordering.lt
and_then_with Ordering.gt next = ok Ordering.gt

-- The comparison of `sort_by`: higher score, then higher weight, then lower index first.
unfoldable pub compare_indices :
    List CapabilityMatchOutcome → List RouteCandidate → ℕ → ℕ → Result Ordering
compare_indices outcomes candidates left right = do
  right_outcome ← expect (get_elem? outcomes right)
  left_outcome ← expect (get_elem? outcomes left)
  and_then_with (compare right_outcome.score left_outcome.score) (do
    right_candidate ← expect (get_elem? candidates right)
    left_candidate ← expect (get_elem? candidates left)
    ok (then_with (total_cmp right_candidate.weight left_candidate.weight) (compare left right)))

-- `sort_by` with a comparison that may panic.
module _ (cmp : ℕ → ℕ → Result Ordering) where
  abbrev pub insert_index : ℕ → List ℕ → Result (List ℕ)
  insert_index x [] = ok (x ∷ [])
  insert_index x (y ∷ ys) =
      let later = insert_index x ys in
      cmp x y >>= λ o. if is_gt o then (later >>= λ rest. ok (y ∷ rest)) else ok (x ∷ y ∷ ys)

  abbrev pub sort_indices : List ℕ → Result (List ℕ)
  sort_indices [] = ok []
  sort_indices (x ∷ xs) = sort_indices xs >>= λ rest. insert_index x rest

abbrev pub outcomes_of : RoutePlanInput → List RouteCandidate → Result (List CapabilityMatchOutcome)
outcomes_of input [] = ok []
outcomes_of input (c ∷ cs) =
    let rest = outcomes_of input cs in
    candidate_capability_match input c >>= λ outcome. rest >>= λ outcomes. ok (outcome ∷ outcomes)

-- The `filter_map` over the outcomes, with the index of the first of them.
abbrev pub matching_indices : ℕ → List CapabilityMatchOutcome → List ℕ
matching_indices index [] = []
matching_indices index (outcome ∷ outcomes) =
    let rest = matching_indices (suc index) outcomes in
    if outcome.matches then index ∷ rest else rest

-- `indices.iter().map(|index| candidates[*index].alias)`.
unfoldable pub aliases_at : List RouteCandidate → List ℕ → Result (List Str)
aliases_at cs [] = ok []
aliases_at cs (i ∷ is) =
    let rest = aliases_at cs is in
    expect (get_elem? cs i) >>= λ c. rest >>= λ aliases. ok (c.alias ∷ aliases)

abbrev pub match_status : List Str → String
match_status selected = if is_empty selected then "no_match" else "selected"

unfoldable pub capability_decision :
    RoutePlanInput
    → List CapabilityMatchOutcome
    → List ℕ
    → ℕ
    → RouteCandidate
    → Result RouteDecision
unfolding decision_with_details
capability_decision input outcomes selected_indices index candidate = do
  outcome ← expect (get_elem? outcomes index)
  ok (
      decision_with_details candidate outcome.matches (position (λ i. i == index) selected_indices)
        (capability_reason outcome.matches (capability_requirements_present input)
          outcome.missing_requirements)
        (record {
          matched_tags = outcome.matched_tags;
          matched_capabilities = outcome.matched_capabilities;
          matched_input_modes = outcome.matched_input_modes;
          matched_output_modes = outcome.matched_output_modes;
          missing_requirements = outcome.missing_requirements;
        }))

abbrev pub capability_decisions :
    RoutePlanInput
    → List CapabilityMatchOutcome
    → List ℕ
    → ℕ
    → List RouteCandidate
    → Result (List RouteDecision)
capability_decisions input outcomes selected_indices index [] = ok []
capability_decisions input outcomes selected_indices index (c ∷ cs) =
    let rest = capability_decisions input outcomes selected_indices (suc index) cs in
    capability_decision input outcomes selected_indices index c >>= λ d.
    rest >>= λ decisions. ok (d ∷ decisions)

unfoldable pub explain_capability_match : RoutePlanInput → Result RoutePlan
unfolding plan
explain_capability_match input = do
  outcomes ← outcomes_of input input.candidates
  let matching = matching_indices 0 outcomes
  selected_indices ←
      if capability_requirements_present input
      then sort_indices (compare_indices outcomes input.candidates) matching
      else ok matching
  selected ← aliases_at input.candidates selected_indices
  decisions ← capability_decisions input outcomes selected_indices 0 input.candidates
  ok (plan input "filter" (match_status selected) selected decisions none none)

unfoldable pub tag_matches : RoutePlanInput → RouteCandidate → Bool
tag_matches input c =
    let required = normalized_set input.required_tags in
    is_empty required || is_subset required (normalized_set c.tags)

-- The `map` of `explain_tag_match`, with the count of the candidates selected so far.
unfoldable pub tag_decisions : RoutePlanInput → ℕ → List RouteCandidate → List RouteDecision
unfolding decision
tag_decisions input order [] = []
tag_decisions input order (c ∷ cs) =
    let matched = intersection_in_required_order input.required_tags (normalized_set c.tags) in
    let matches = tag_matches input c in
    decision c matches (if matches then some order else none)
      (if matches
        then if is_empty (normalized_set input.required_tags)
          then "no required tags; candidate remains eligible"
          else "candidate satisfies required tags"
        else "candidate is missing one or more required tags")
      matched []
    ∷ tag_decisions input (if matches then suc order else order) cs

unfoldable pub explain_tag_match : RoutePlanInput → Result RoutePlan
unfolding plan
explain_tag_match input =
    let selected =
      map (λ (c : RouteCandidate). c.alias) (filter_by (tag_matches input) input.candidates) in
    ok (
      plan input "filter" (match_status selected) selected (tag_decisions input 0 input.candidates)
        none none)
