-- ===== src/Router/Plans/Filter.antt =====
-- The plans of the policies that filter: crates/missive-router/src/lib.rs,
-- `explain_capability_match` and `explain_tag_match`.
use missive.Common.{
  ℕ, suc, ◌≡◌, refl, subst, true, false, none, some, List, [], ◌∷◌, ◌++◌, map, length, get_elem?,
  count_by, map_from, All, arith, ◌==◌, Option-cases, inl, inr, filter_by, position,
  position_from_sound, position-In, ap, sym, ◌∙◌, Bool-cases, In, In-filter_by, filter_by-In,
  In-sort_by, sort_by-In, length-sort_by, length-map, get_elem?-map, All-map, map_from-at, at,
}
use mathlib.Core.List.{append_assoc}
use missive.Common.Str.{Str}
use missive.Core.Error.{ok}
use missive.Core.Error.Laws.{ok-injective}
use missive.Router.Types.{RouteCandidate, RoutePlanInput, RouteDecision, RoutePlan}
use missive.Router.Match.{
  explain_capability_match, tag_matches, tag_decisions, explain_tag_match,
  capability_requirements_present,
}
use missive.Router.Plans.Rows.{
  Row, row_at, capability_rows, selected_rows, row_decision, compare_rows, rows_plan,
}
use missive.Router.Plans.Indices.{explain_capability_match-rows_plan}
use missive.Router.Plans.{Placed, IsConsistent, aliases}

get_elem?-middle {ℓ} :
    {A : Type ℓ} (xs : List A) (y : A) (ys : List A) (k : ℕ)
    → k ≡ length xs
    → get_elem? (xs ++ y ∷ ys) k ≡ some y
get_elem?-middle [] y ys k e = rw e
get_elem?-middle (x ∷ xs) y ys k e = rw e (get_elem?-middle xs y ys (length xs) refl)

length-snoc {ℓ} : {A : Type ℓ} (xs : List A) (y : A) → length (xs ++ y ∷ []) ≡ suc (length xs)
length-snoc [] y = refl
length-snoc (x ∷ xs) y = ap suc (length-snoc xs y)

module _ (input : RoutePlanInput) where
  abbrev tag_selected : List RouteCandidate → List Str
  tag_selected cs = aliases (filter_by (tag_matches input) cs)

  tag_decisions-Placed :
      (sel before : List Str) (order : ℕ) (cs : List RouteCandidate)
      → sel ≡ before ++ tag_selected cs
      → order ≡ length before
      → All (Placed sel) (tag_decisions input order cs)
  unfolding tag_decisions
  tag_decisions-Placed sel before order [] split e = tt
  tag_decisions-Placed sel before order (c ∷ cs) split e = elim (Bool-cases (tag_matches input c)) [
    | inl hit ↦
        let here : sel ≡ before ++ c.alias ∷ tag_selected cs = split ∙ rw hit in
        rw hit (
          (refl, rw here (get_elem?-middle before c.alias (tag_selected cs) order e)),
          tag_decisions-Placed sel (before ++ c.alias ∷ []) (suc order) cs
              (here ∙ sym (append_assoc before (c.alias ∷ []) (tag_selected cs)))
              (ap suc e ∙ sym (length-snoc before c.alias)),
        )
    | inr miss ↦ rw miss (refl, tag_decisions-Placed sel before order cs (split ∙ rw miss) e)
  ]

  tag_decisions-in_order :
      (order : ℕ) (cs : List RouteCandidate)
      → (map (λ d. d.alias) (tag_decisions input order cs) ≡ aliases cs)
        × (count_by (λ d. d.selected) (tag_decisions input order cs) ≡ length (tag_selected cs))
  unfolding tag_decisions
  tag_decisions-in_order order [] = (refl, refl)
  tag_decisions-in_order order (c ∷ cs) =
      ground (arith, tag_decisions-in_order order cs, tag_decisions-in_order (suc order) cs)

  pub explain_tag_match-IsConsistent :
      (p : RoutePlan) → explain_tag_match input ≡ ok p → IsConsistent input p
  unfolding explain_tag_match
  explain_tag_match-IsConsistent p h =
      let (names, count) = tag_decisions-in_order 0 input.candidates in
      subst (IsConsistent input) (ok-injective h) (record {
        policy_kept = refl;
        total = refl;
        in_order = names;
        placed = tag_decisions-Placed _ [] 0 input.candidates refl refl;
        counted = count;
      })

  pub row_of :
      (r : Row)
      → In r (capability_rows input)
      → (i : ℕ) × (c : RouteCandidate) × (get_elem? input.candidates i ≡ some c)
        × (r ≡ row_at input i c)
  unfolding capability_rows
  row_of r (at i g) =
      let (j, c, e, found, shape) = map_from-at 0 (row_at input) input.candidates i g in
      let same : j ≡ i = omega arith in (i, c, found, rw (← same) shape)

  -- Two rows with one index are one row.
  row_unique :
      (r q : Row)
      → In r (capability_rows input)
      → In q (capability_rows input)
      → r.index ≡ q.index
      → r ≡ q
  row_unique r q m n e =
      let (i, c, found, shape) = row_of r m in let (j, d, other, form) = row_of q n in ground arith

  pub selected_rows-In :
      (r : Row)
      → In r (selected_rows input)
      → In r (capability_rows input) × (r.outcome.matches ≡ true)
  unfolding selected_rows
  selected_rows-In r m = elim (Bool-cases (capability_requirements_present input)) [
    | inl wanted ↦ filter_by-In _ r _ (sort_by-In compare_rows r _ (rw wanted at m))
    | inr none_wanted ↦ filter_by-In _ r _ (rw none_wanted at m)
  ]

  pub In-selected_rows :
      (r : Row)
      → In r (capability_rows input)
      → r.outcome.matches ≡ true
      → In r (selected_rows input)
  unfolding selected_rows
  In-selected_rows r m t =
      let kept = In-filter_by (λ (r : Row). r.outcome.matches) r (capability_rows input) t m in
      elim (Bool-cases (capability_requirements_present input)) [
        | inl wanted ↦ rw wanted (In-sort_by compare_rows r _ kept)
        | inr none_wanted ↦ rw none_wanted kept
      ]

  row_decision-Placed :
      (r : Row)
      → In r (capability_rows input)
      → Placed
          (map (λ (r : Row). r.candidate.alias) (selected_rows input))
          (row_decision input (selected_rows input) r)
  unfolding row_decision
  row_decision-Placed r m =
      elim (Option-cases (position (λ (q : Row). q.index == r.index) (selected_rows input))) [
        | inl absent ↦ rw absent (not_selected absent)
        | inr (k, there) ↦
            let (i, q, e, found, hit) =
              position_from_sound 0 (λ (q : Row). q.index == r.index) (selected_rows input) there in
            let (known, matched) = selected_rows-In q (at i found) in
            let same : q ≡ r = row_unique q r known m (ground arith) in
            let place : k ≡ i = omega arith in
            rw there (
              subst (λ (z : Row). z.outcome.matches ≡ true) same matched,
              rw place (
                  subst
                    (λ (z : Row).
                      get_elem? (map (λ (r : Row). r.candidate.alias) (selected_rows input)) i
                      ≡ some z.candidate.alias)
                    same
                    (get_elem?-map (λ (r : Row). r.candidate.alias) (selected_rows input) i {x = q}
                      found)),
            )
      ]
    where
      not_selected :
          position (λ (q : Row). q.index == r.index) (selected_rows input) ≡ none
          → r.outcome.matches ≡ false
      not_selected absent = elim (Bool-cases r.outcome.matches) [
        | inr no_match ↦ no_match
        | inl matched ↦
            let (k, there) =
              position-In (λ (q : Row). q.index == r.index) r (selected_rows input)
                (In-selected_rows r m matched) (ground arith) in
            absurd (ground arith)
      ]

  count-matches :
      (d : Row → RouteDecision) (rows : List Row)
      → ((r : Row) → (d r).selected ≡ r.outcome.matches)
      → count_by (λ d. d.selected) (map d rows)
        ≡ length (filter_by (λ (r : Row). r.outcome.matches) rows)
  count-matches d [] h = refl
  count-matches d (r ∷ rows) h = ground (arith, h r, count-matches d rows h)

  pub length-selected_rows :
      length (selected_rows input)
      ≡ length (filter_by (λ (r : Row). r.outcome.matches) (capability_rows input))
  unfolding selected_rows
  length-selected_rows = elim (Bool-cases (capability_requirements_present input)) [
    | inl wanted ↦ rw wanted (length-sort_by compare_rows _)
    | inr none_wanted ↦ rw none_wanted
  ]

  rows-in_order :
      (rows : List Row) (k : ℕ) (cs : List RouteCandidate)
      → map (λ d. d.alias) (map (row_decision input rows) (map_from k (row_at input) cs))
        ≡ aliases cs
  unfolding row_decision
  rows-in_order rows k [] = refl
  rows-in_order rows k (c ∷ cs) = ap (◌∷◌ c.alias) (rows-in_order rows (suc k) cs)

  pub explain_capability_match-IsConsistent :
      (p : RoutePlan) → explain_capability_match input ≡ ok p → IsConsistent input p
  unfolding rows_plan row_decision capability_rows
  explain_capability_match-IsConsistent p h =
      subst (IsConsistent input) (ok-injective (sym (explain_capability_match-rows_plan input) ∙ h))
        (record {
          policy_kept = refl;
          total = refl;
          in_order = rows-in_order (selected_rows input) 0 input.candidates;
          placed = All-map _ _ (capability_rows input) (λ i r g. row_decision-Placed r (at i g));
          counted =
              count-matches _ (capability_rows input) (λ r. refl)
              ∙ sym length-selected_rows
              ∙ sym (length-map (selected_rows input) _);
        })
