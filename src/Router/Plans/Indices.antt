-- ===== src/Router/Plans/Indices.antt =====
-- The indices of `explain_capability_match` in crates/missive-router/src/lib.rs: the outcomes and the
-- candidates that it reads are there, so that it gives the plan that is made from rows.
use missive.Common.{
  ℕ, suc, ◌+◌, String, Bool, true, false, Option, none, some, List, [], ◌∷◌, map, if◌then◌else◌,
  filter_by, position_from, sort_by, map_from, Ordering, ◌==◌, ◌≡◌, refl, arith, get_elem?, In, at,
  In-tail, is_gt, Bool-cases, inl, inr, map_from-at, get_elem?-map, insert_by, sort_by-In,
  filter_by-In,
}
use missive.Core.Error.{ok}
use missive.Router.Types.{RouteCandidate, RoutePlanInput}
use missive.Router.Match.{
  CapabilityMatchOutcome, missing_flag, missing_requirements_of, candidate_capability_match,
  capability_requirements_present, then_with, and_then_with, compare_indices, insert_index,
  sort_indices, outcomes_of, matching_indices, aliases_at, capability_decision,
  capability_decisions, explain_capability_match,
}
use missive.Router.Plans.Rows.{
  Row, row_at, flag_missing, missing_of, outcome_of, compare_rows, capability_rows, selected_rows,
  row_decision, rows_plan,
}

missing_flag-ok :
    (require : Bool) (supports : Option Bool) (said_false unknown : String)
    → missing_flag require supports said_false unknown
      ≡ ok (flag_missing require supports said_false unknown)
unfolding missing_flag flag_missing
missing_flag-ok false supports said_false unknown = refl
missing_flag-ok true none said_false unknown = refl
missing_flag-ok true (some true) said_false unknown = refl
missing_flag-ok true (some false) said_false unknown = refl

pub candidate_capability_match-ok :
    (input : RoutePlanInput) (c : RouteCandidate)
    → candidate_capability_match input c ≡ ok (outcome_of input c)
unfolding candidate_capability_match missing_requirements_of outcome_of missing_of
candidate_capability_match-ok input c = rw (missing_flag-ok, missing_flag-ok) refl

outcomes_of-ok :
    (input : RoutePlanInput) (cs : List RouteCandidate)
    → outcomes_of input cs ≡ ok (map (outcome_of input) cs)
outcomes_of-ok input [] = refl
outcomes_of-ok input (c ∷ cs) =
    rw (candidate_capability_match-ok input c, outcomes_of-ok input cs) refl

abbrev indices : List Row → List ℕ
indices = map (λ (r : Row). r.index)

matching_indices-rows :
    (input : RoutePlanInput) (k : ℕ) (cs : List RouteCandidate)
    → matching_indices k (map (outcome_of input) cs)
      ≡ indices (filter_by (λ (r : Row). r.outcome.matches) (map_from k (row_at input) cs))
matching_indices-rows input k [] = refl
matching_indices-rows input k (c ∷ cs) =
    let rest = matching_indices-rows input (suc k) cs in
    elim (Bool-cases (outcome_of input c).matches) [
      | inl hit ↦ rw (hit, rest) refl
      | inr miss ↦ rw (miss, rest) refl
    ]

and_then_with-ok :
    (first next : Ordering) → and_then_with first (ok next) ≡ ok (then_with first next)
and_then_with-ok Ordering.eq next = refl
and_then_with-ok Ordering.lt next = refl
and_then_with-ok Ordering.gt next = refl

position_from-indices :
    (n k : ℕ) (rows : List Row)
    → position_from n (λ i. i == k) (indices rows)
      ≡ position_from n (λ (r : Row). r.index == k) rows
position_from-indices n k [] = refl
position_from-indices n k (r ∷ rows) = ground (arith, position_from-indices (suc n) k rows)

module _ (outcomes : List CapabilityMatchOutcome) (candidates : List RouteCandidate) where
  -- The lists hold what the row says.
  abbrev IsRow : Row → Type 0
  IsRow r =
      (get_elem? outcomes r.index ≡ some r.outcome)
      × (get_elem? candidates r.index ≡ some r.candidate)

  compare_indices-rows :
      (x y : Row)
      → IsRow x
      → IsRow y
      → compare_indices outcomes candidates x.index y.index ≡ ok (compare_rows x y)
  unfolding compare_indices compare_rows
  compare_indices-rows x y h k = rw (k.0, h.0, k.1, h.1) (and_then_with-ok _ _)

  insert_index-rows :
      (x : Row) (rows : List Row)
      → IsRow x
      → ((r : Row) → In r rows → IsRow r)
      → insert_index (compare_indices outcomes candidates) x.index (indices rows)
        ≡ ok (indices (insert_by compare_rows x rows))
  insert_index-rows x [] h all = refl
  insert_index-rows x (y ∷ rows) h all =
      let one = compare_indices-rows x y h (all y (at 0 refl)) in
      let rest = insert_index-rows x rows h (λ r m. all r (In-tail m)) in
      elim (Bool-cases (is_gt (compare_rows x y))) [
        | inl after ↦ rw one (rw after (rw rest refl))
        | inr before ↦ rw one (rw before refl)
      ]

  sort_indices-rows :
      (rows : List Row)
      → ((r : Row) → In r rows → IsRow r)
      → sort_indices (compare_indices outcomes candidates) (indices rows)
        ≡ ok (indices (sort_by compare_rows rows))
  sort_indices-rows [] all = refl
  sort_indices-rows (x ∷ rows) all = rw (sort_indices-rows rows (λ r m. all r (In-tail m))) (
      insert_index-rows x (sort_by compare_rows rows) (all x (at 0 refl))
        (λ r m. all r (In-tail (sort_by-In compare_rows r rows m))))

  aliases_at-rows :
      (rows : List Row)
      → ((r : Row) → In r rows → IsRow r)
      → aliases_at candidates (indices rows) ≡ ok (map (λ (r : Row). r.candidate.alias) rows)
  unfolding aliases_at
  aliases_at-rows [] all = refl
  aliases_at-rows (x ∷ rows) all =
      rw ((all x (at 0 refl)).1, aliases_at-rows rows (λ r m. all r (In-tail m))) refl

  capability_decisions-rows :
      (input : RoutePlanInput) (rows : List Row) (k : ℕ) (cs : List RouteCandidate)
      → ((i j : ℕ) (c : RouteCandidate)
          → j ≡ k + i
          → get_elem? cs i ≡ some c
          → get_elem? outcomes j ≡ some (outcome_of input c))
      → capability_decisions input outcomes (indices rows) k cs
        ≡ ok (map (row_decision input rows) (map_from k (row_at input) cs))
  unfolding capability_decision row_decision
  capability_decisions-rows input rows k [] found = refl
  capability_decisions-rows input rows k (c ∷ cs) found =
      let here = found 0 k c (omega arith) refl in
      let rest =
        capability_decisions-rows input rows (suc k) cs
          (λ i j d e g. found (suc i) j d (omega arith) g) in
      rw (here, position_from-indices 0 k rows, rest) refl

module _ (input : RoutePlanInput) where
  abbrev outcomes : List CapabilityMatchOutcome
  outcomes = map (outcome_of input) input.candidates

  capability_rows-IsRow :
      (r : Row) → In r (capability_rows input) → IsRow outcomes input.candidates r
  unfolding capability_rows
  capability_rows-IsRow r (at i g) =
      let (j, c, e, found, shape) = map_from-at 0 (row_at input) input.candidates i g in
      let same : j ≡ i = omega arith in
      rw shape
        (rw same (get_elem?-map (outcome_of input) input.candidates i {x = c} found), rw same found)

  eligible-IsRow :
      (r : Row)
      → In r (filter_by (λ (r : Row). r.outcome.matches) (capability_rows input))
      → IsRow outcomes input.candidates r
  eligible-IsRow r m = capability_rows-IsRow r (filter_by-In _ r _ m).0

  selected_rows-IsRow : (r : Row) → In r (selected_rows input) → IsRow outcomes input.candidates r
  unfolding selected_rows
  selected_rows-IsRow r m = elim (Bool-cases (capability_requirements_present input)) [
    | inl wanted ↦ eligible-IsRow r (sort_by-In compare_rows r _ (rw wanted at m))
    | inr none_wanted ↦ eligible-IsRow r (rw none_wanted at m)
  ]

  selected_indices-rows :
      (if capability_requirements_present input
        then sort_indices (compare_indices outcomes input.candidates) (matching_indices 0 outcomes)
        else ok (matching_indices 0 outcomes))
      ≡ ok (indices (selected_rows input))
  unfolding selected_rows capability_rows
  selected_indices-rows =
      rw (matching_indices-rows input 0 input.candidates)
        (elim (Bool-cases (capability_requirements_present input)) [
          | inl wanted ↦
              rw wanted (sort_indices-rows outcomes input.candidates _ (λ r m. eligible-IsRow r m))
          | inr none_wanted ↦ rw none_wanted refl
        ])

  -- No index is out of bounds, and no arm is reached that should not be.
  pub explain_capability_match-rows_plan : explain_capability_match input ≡ ok (rows_plan input)
  unfolding explain_capability_match rows_plan capability_rows
  explain_capability_match-rows_plan = rw (outcomes_of-ok input input.candidates) (
      rw selected_indices-rows (
        rw (aliases_at-rows outcomes input.candidates (selected_rows input) selected_rows-IsRow) (
          rw
            (capability_decisions-rows outcomes input.candidates input (selected_rows input) 0
              input.candidates
              (λ i j c e found.
                let same : j ≡ i = omega arith in
                rw same (get_elem?-map (outcome_of input) input.candidates i {x = c} found)))
            refl)))
