-- ===== src/Router/Types.antt =====
-- crates/missive-router/src/lib.rs: candidates, the input and the output of a dry-run plan, and
-- their validation. Weights are 64-bit floats by their bits.
use missive.Common.{
  ℕ, String, Bool, not, ◌&&◌, ◌||◌, Option, none, some, List, [], ◌∷◌, is_empty, length, ltb, ◌==◌,
}
use missive.Common.Str.{Str}
use missive.Common.Float.{F64, one_bits, is_finite, is_positive}
use missive.Core.Error.{Result, ok, ◌>>◌, fail_if, validation_error}
use missive.Core.Json.{Metadata}
use missive.Core.Routing.{RoutingPolicyKind}
use missive.Router.Labels.{validate_labels}

pub record RouteCandidate : Type 0 where
  pub alias : Str
  pub rank : Option Str
  pub tags : List Str
  pub capabilities : List Str
  pub input_modes : List Str
  pub output_modes : List Str
  pub supports_streaming : Option Bool
  pub supports_push_notifications : Option Bool
  pub capability_cache_status : Option Str
  pub weight : F64
  pub metadata : Metadata

-- `RouteCandidate::new`.
abbrev pub new_candidate : Str → RouteCandidate
new_candidate alias = record {
  alias = alias;
  rank = none;
  tags = [];
  capabilities = [];
  input_modes = [];
  output_modes = [];
  supports_streaming = none;
  supports_push_notifications = none;
  capability_cache_status = none;
  weight = one_bits;
  metadata = [];
}

-- `RouteCandidate::validate`.
unfoldable pub validate_candidate : RouteCandidate → Result (Unit {0})
validate_candidate c = do
  fail_if (not (is_finite c.weight && is_positive c.weight))
      (validation_error "weights must be positive finite numbers")
  validate_labels c.tags
  validate_labels c.capabilities
  validate_labels c.input_modes
  validate_labels c.output_modes

-- `round_robin_cursor` is a u64 and `quorum` a usize.
pub record RoutePlanInput : Type 0 where
  pub policy : RoutingPolicyKind
  pub candidates : List RouteCandidate
  pub preferred_agent : Option Str
  pub required_tags : List Str
  pub required_capabilities : List Str
  pub required_input_modes : List Str
  pub required_output_modes : List Str
  pub require_streaming : Bool
  pub require_push_notifications : Bool
  pub round_robin_cursor : ℕ
  pub quorum : Option ℕ

unfoldable pub validate_quorum : ℕ → ℕ → Result (Unit {0})
validate_quorum quorum candidates =
    fail_if ((quorum == 0) || ltb candidates quorum)
      (validation_error "quorum must be between 1 and the candidate count")

unfoldable pub validate_candidates : List RouteCandidate → Result (Unit {0})
validate_candidates [] = ok tt
validate_candidates (c ∷ cs) = validate_candidate c >> validate_candidates cs

-- `RoutePlanInput::validate`.
unfoldable pub validate_input : RoutePlanInput → Result (Unit {0})
unfolding validate_quorum
validate_input input = do
  fail_if (is_empty input.candidates)
      (validation_error "route explanation requires at least one candidate")
  validate_candidates input.candidates
  validate_labels input.required_tags
  validate_labels input.required_capabilities
  validate_labels input.required_input_modes
  validate_labels input.required_output_modes
  elim input.quorum [ none ↦ ok tt | some q ↦ validate_quorum q (length input.candidates) ]

pub record RouteDecision : Type 0 where
  pub alias : Str
  pub rank : Option Str
  pub selected : Bool
  pub order : Option ℕ
  pub weight : F64
  pub reason : String
  pub matched_tags : List Str
  pub matched_capabilities : List Str
  pub matched_input_modes : List Str
  pub matched_output_modes : List Str
  pub missing_requirements : List Str

pub record RoutePlan : Type 0 where
  pub policy : RoutingPolicyKind
  pub mode : String
  pub status : String
  pub total_candidates : ℕ
  pub selected : List Str
  pub decisions : List RouteDecision
  pub required_quorum : Option ℕ
  pub next_round_robin_cursor : Option ℕ

unfoldable pub plan :
    RoutePlanInput
    → String
    → String
    → List Str
    → List RouteDecision
    → Option ℕ
    → Option ℕ
    → RoutePlan
plan input mode status selected decisions required_quorum next_round_robin_cursor = record {
  policy = input.policy;
  mode = mode;
  status = status;
  total_candidates = length input.candidates;
  selected = selected;
  decisions = decisions;
  required_quorum = required_quorum;
  next_round_robin_cursor = next_round_robin_cursor;
}

pub record DecisionRequirementDetails : Type 0 where
  pub matched_tags : List Str
  pub matched_capabilities : List Str
  pub matched_input_modes : List Str
  pub matched_output_modes : List Str
  pub missing_requirements : List Str

unfoldable pub decision_with_details :
    RouteCandidate → Bool → Option ℕ → String → DecisionRequirementDetails → RouteDecision
decision_with_details candidate selected order reason details = record {
  alias = candidate.alias;
  rank = candidate.rank;
  selected = selected;
  order = order;
  weight = candidate.weight;
  reason = reason;
  matched_tags = details.matched_tags;
  matched_capabilities = details.matched_capabilities;
  matched_input_modes = details.matched_input_modes;
  matched_output_modes = details.matched_output_modes;
  missing_requirements = details.missing_requirements;
}

unfoldable pub decision :
    RouteCandidate → Bool → Option ℕ → String → List Str → List Str → RouteDecision
unfolding decision_with_details
decision candidate selected order reason matched_tags matched_capabilities =
    decision_with_details candidate selected order reason (record {
      matched_tags = matched_tags;
      matched_capabilities = matched_capabilities;
      matched_input_modes = [];
      matched_output_modes = [];
      missing_requirements = [];
    })
