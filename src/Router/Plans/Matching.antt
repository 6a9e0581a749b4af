-- ===== src/Router/Plans/Matching.antt =====
-- crates/missive-router/src/lib.rs, `explain_capability_match`: which candidates are eligible, and
-- in what order they are selected.
use missive.Common.{
  String, ℕ, zero, suc, ◌<◌, ◌≤◌, ◌≡◌, refl, Bool, true, false, not, ◌&&◌, ◌||◌, Option, some, List,
  [], ◌∷◌, ◌++◌, map, all, is_empty, get_elem?, get_elem?-map_from, get_elem?-lt, arith, In, at,
  sym, ◌∙◌, ap, subst, ◌↔◌, is_gt, sort_by-IsSorted, IsSorted, filter_by, map_from, count_by,
  length, ◌⊎◌,
}
use missive.Common.Str.{Str}
use missive.Common.Float.{total_key}
use missive.Common.Set.{contains}
use missive.Core.Error.{ok}
use missive.Core.Error.Laws.{ok-injective}
use missive.Router.Labels.{normalize_label, normalized_set, missing_labels}
use missive.Router.Types.{RouteCandidate, RoutePlanInput, RoutePlan}
use missive.Router.Match.{
  capability_requirements_present, candidate_capability_match, is_true, explain_capability_match,
}
use missive.Router.Plans.Rows.{
  Row, row_at, capability_rows, selected_rows, compare_rows, outcome_of, missing_of, flag_missing,
  rows_plan,
}
use missive.Router.Plans.Indices.{candidate_capability_match-ok, explain_capability_match-rows_plan}
use missive.Router.Plans.Filter.{selected_rows-In, In-selected_rows, row_of, length-selected_rows}

-- Every required label, in its normal form, is one of the labels on offer.
abbrev pub offers_all : List Str → List Str → Bool
offers_all offered required =
    all (λ label. contains (normalized_set offered) (normalize_label label)) required

abbrev pub meets : RoutePlanInput → RouteCandidate → Bool
meets input c =
    offers_all c.tags input.required_tags
    && (offers_all c.capabilities input.required_capabilities
        && (offers_all c.input_modes input.required_input_modes
            && (offers_all c.output_modes input.required_output_modes
                && ((not input.require_streaming || is_true c.supports_streaming)
                    && (not input.require_push_notifications
                        || is_true c.supports_push_notifications)))))

is_empty-append : (xs ys : List Str) → is_empty (xs ++ ys) ≡ (is_empty xs && is_empty ys)
is_empty-append [] ys = refl
is_empty-append (x ∷ xs) ys = refl

is_empty-missing_labels :
    (kind : Str) (offered required : List Str)
    → is_empty (missing_labels kind required (normalized_set offered)) ≡ offers_all offered required
unfolding missing_labels
is_empty-missing_labels kind offered [] = refl
is_empty-missing_labels kind offered (label ∷ required) =
    let rest = is_empty-missing_labels kind offered required in ground arith

is_empty-flag_missing :
    (require : Bool) (supports : Option Bool) (said_false unknown : String)
    → is_empty (flag_missing require supports said_false unknown)
      ≡ (not require || is_true supports)
unfolding flag_missing
is_empty-flag_missing require supports said_false unknown = ground arith

-- The order of the selection: the higher score first, then the higher weight, then the candidate
-- that was given earlier.
abbrev pub IsAhead : Row → Row → Type 0
IsAhead x y =
    (y.outcome.score < x.outcome.score)
    ⊎ ((y.outcome.score ≡ x.outcome.score)
        × ((total_key y.candidate.weight < total_key x.candidate.weight)
            ⊎ ((total_key y.candidate.weight ≡ total_key x.candidate.weight)
                × (x.index ≤ y.index))))

compare_rows-IsAhead : (x y : Row) → is_gt (compare_rows x y) ≡ false → IsAhead x y
unfolding compare_rows
compare_rows-IsAhead x y h = ground arith

compare_rows-total :
    (x y : Row) → is_gt (compare_rows x y) ≡ true → is_gt (compare_rows y x) ≡ false
unfolding compare_rows
compare_rows-total x y h = ground arith

IsAhead-trans : (x y z : Row) → IsAhead x y → IsAhead y z → IsAhead x z
IsAhead-trans x y z h g = ground arith

IsSorted-IsAhead :
    (rows : List Row) (m n : ℕ) (x y : Row)
    → IsSorted compare_rows rows
    → m < n
    → get_elem? rows m ≡ some x
    → get_elem? rows n ≡ some y
    → IsAhead x y
IsSorted-IsAhead [] m n x y sorted h e g = absurd cc
IsSorted-IsAhead (r ∷ []) m n x y sorted h e g =
    let one = get_elem?-lt (r ∷ []) n g in absurd (omega arith)
IsSorted-IsAhead (r ∷ q ∷ rows) zero zero x y sorted h e g = absurd (omega arith)
IsSorted-IsAhead (r ∷ q ∷ rows) zero (suc zero) x y sorted h e g =
    compare_rows-IsAhead x y (ground arith)
IsSorted-IsAhead (r ∷ q ∷ rows) zero (suc (suc n)) x y sorted h e g =
    let same : r ≡ x = ground arith in
    IsAhead-trans x q y (subst (λ (z : Row). IsAhead z q) same (compare_rows-IsAhead r q sorted.0))
      (IsSorted-IsAhead (q ∷ rows) 0 (suc n) q y sorted.1 (omega arith) refl g)
IsSorted-IsAhead (r ∷ q ∷ rows) (suc m) zero x y sorted h e g = absurd (omega arith)
IsSorted-IsAhead (r ∷ q ∷ rows) (suc m) (suc n) x y sorted h e g =
    IsSorted-IsAhead (q ∷ rows) m n x y sorted.1 (omega arith) e g

module _ (input : RoutePlanInput) where
  matches-meets : (c : RouteCandidate) → (outcome_of input c).matches ≡ meets input c
  unfolding outcome_of missing_of
  matches-meets c = simp (is_empty-append, is_empty-missing_labels, is_empty-flag_missing) refl

  length-eligible :
      (k : ℕ) (cs : List RouteCandidate)
      → length (filter_by (λ (r : Row). r.outcome.matches) (map_from k (row_at input) cs))
        ≡ count_by (meets input) cs
  length-eligible k [] = refl
  length-eligible k (c ∷ cs) = ground (arith, length-eligible (suc k) cs, matches-meets c)

  row_at-In :
      (i : ℕ) (c : RouteCandidate)
      → get_elem? input.candidates i ≡ some c
      → In (row_at input i c) (capability_rows input)
  unfolding capability_rows
  row_at-In i c found =
      at i (get_elem?-map_from 0 (row_at input) input.candidates i i (omega arith) found)

  selected_rows-IsSorted :
      capability_requirements_present input ≡ true → IsSorted compare_rows (selected_rows input)
  unfolding selected_rows
  selected_rows-IsSorted wanted = rw wanted (
      sort_by-IsSorted compare_rows compare_rows-total
        (filter_by (λ (r : Row). r.outcome.matches) (capability_rows input)))

  -- The rows of the candidates that meet the requirements, each with its place and its outcome.
  abbrev pub IsEligible : Row → Type 0
  IsEligible r =
      (get_elem? input.candidates r.index ≡ some r.candidate)
      × (candidate_capability_match input r.candidate ≡ ok r.outcome)
      × (meets input r.candidate ≡ true)

  selected_rows-IsEligible : (r : Row) → In r (selected_rows input) → IsEligible r
  selected_rows-IsEligible r m =
      let (known, matched) = selected_rows-In input r m in
      let (i, c, found, shape) = row_of input r known in
      subst IsEligible (sym shape) (
        found,
        candidate_capability_match-ok input c,
        sym (matches-meets c) ∙ subst (λ (z : Row). z.outcome.matches ≡ true) shape matched,
      )

  IsEligible-selected_rows : (r : Row) → IsEligible r → In r (selected_rows input)
  IsEligible-selected_rows r (found, made, met) =
      let same : outcome_of input r.candidate ≡ r.outcome =
        ok-injective (sym (candidate_capability_match-ok input r.candidate) ∙ made) in
      let row : row_at input r.index r.candidate ≡ r =
        ap (λ o. record { index = r.index; candidate = r.candidate; outcome = o }) same in
      subst (λ (z : Row). In z (selected_rows input)) row
        (In-selected_rows input (row_at input r.index r.candidate)
          (row_at-In r.index r.candidate found) (matches-meets r.candidate ∙ met))

  -- The capability-match policy selects exactly the candidates that offer every required label, and
  -- streaming and push support where these are required, each of them once. If anything is required,
  -- every candidate of the selection has a higher score than one behind it, or the same score and a
  -- higher weight, or the same of both and was given earlier.
  pub explain_capability_match-IsSorted :
      (p : RoutePlan)
      → explain_capability_match input ≡ ok p
      → (rows : List Row) × (p.selected ≡ map (λ (r : Row). r.candidate.alias) rows)
        × ((r : Row) → In r rows ↔ IsEligible r)
        × (length rows ≡ count_by (meets input) input.candidates)
        × (capability_requirements_present input ≡ true
            → (m n : ℕ) (x y : Row) → m < n
            → get_elem? rows m ≡ some x
            → get_elem? rows n ≡ some y
            → IsAhead x y)
  unfolding rows_plan capability_rows
  explain_capability_match-IsSorted p h =
      let made : rows_plan input ≡ p =
        ok-injective (sym (explain_capability_match-rows_plan input) ∙ h) in
      (
        selected_rows input,
        sym (ap (λ (q : RoutePlan). q.selected) made),
        λ r. (selected_rows-IsEligible r, IsEligible-selected_rows r),
        length-selected_rows input ∙ length-eligible 0 input.candidates,
        λ wanted m n x y.
            IsSorted-IsAhead (selected_rows input) m n x y (selected_rows-IsSorted wanted),
      )
