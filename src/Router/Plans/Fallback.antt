-- ===== src/Router/Plans/Fallback.antt =====
-- The plans of `explain_fallback` in crates/missive-router/src/lib.rs: the primary candidate, then
-- the others in order.
use missive.Common.{
  ℕ, suc, ◌+◌, ◌≤◌, ◌<◌, ◌≡◌, refl, subst, true, not, none, some, List, [], ◌∷◌, map, length,
  get_elem?, get_elem?-lt, get_elem?-some, get_elem?-map, length-map_from, length-map, count_by,
  map_from, All, arith, ◌==◌, if◌then◌else◌, Option-cases, inl, inr, filter_by, position,
  position_from_sound, sym, ◌∙◌, ℕ_discrete, ◌≢◌, ◌⊎◌, ap,
}
use mathlib.Core.List.{Perm}
use mathlib.Core.List.Perm
use missive.Common.Str.{Str, str_eq}
use missive.Core.Error.{ok}
use missive.Core.Error.Laws.{ok-injective}
use missive.Router.Types.{RouteCandidate, RoutePlanInput, RouteDecision, RoutePlan, plan, decision}
use missive.Router.Policies.{
  fallback_indices, fallback_decisions, explain_fallback, preferred_index_or_first,
}
use missive.Router.Match.{aliases_at}
use missive.Router.Plans.{Placed, IsConsistent, aliases}
use missive.Router.Plans.Choice.{preferred_index-alias}

abbrev indices_from : ℕ → List RouteCandidate → List ℕ
indices_from k = map_from k (λ i c. i)

abbrev others : ℕ → List ℕ → List ℕ
others primary = filter_by (λ i. not (i == primary))

others-below :
    (primary k : ℕ) (cs : List RouteCandidate)
    → primary < k
    → others primary (indices_from k cs) ≡ indices_from k cs
others-below primary k [] h = refl
others-below primary k (c ∷ cs) h = ground (arith, others-below primary (suc k) cs)

-- The primary index in front of the others is a permutation of all the indices.
fallback_indices-perm :
    (primary k : ℕ) (cs : List RouteCandidate)
    → k ≤ primary
    → primary < k + length cs
    → Perm (primary ∷ others primary (indices_from k cs)) (indices_from k cs)
fallback_indices-perm primary k [] l h = absurd (omega arith)
fallback_indices-perm primary k (c ∷ cs) l h = elim (ℕ_discrete k primary) [
  | yes hit ↦ rw (kept hit) (Perm.refl _)
  | no miss ↦ rw (moved miss) (
      Perm.trans (Perm.swap k primary _)
        (Perm.cons k (fallback_indices-perm primary (suc k) cs (omega arith) (omega arith))))
]
  where
    kept :
        k ≡ primary → primary ∷ others primary (indices_from k (c ∷ cs)) ≡ indices_from k (c ∷ cs)
    kept hit = ground (arith, others-below primary (suc k) cs)

    moved :
        k ≢ primary
        → primary ∷ others primary (indices_from k (c ∷ cs))
          ≡ primary ∷ k ∷ others primary (indices_from (suc k) cs)
    moved miss = ground arith

-- The alias at an index, for an index in bounds.
abbrev alias_at : List RouteCandidate → ℕ → Str
alias_at cs i = elim (get_elem? cs i) [ none ↦ [] | some c ↦ c.alias ]

aliases_at-cons :
    (cs : List RouteCandidate) (i : ℕ) (is : List ℕ) (sel : List Str)
    → aliases_at cs (i ∷ is) ≡ ok sel
    → (c : RouteCandidate) × (rest : List Str) × (get_elem? cs i ≡ some c)
      × (aliases_at cs is ≡ ok rest)
      × (sel ≡ c.alias ∷ rest)
unfolding aliases_at
aliases_at-cons cs i is sel h = ground arith

aliases_at-map :
    (cs : List RouteCandidate) (is : List ℕ) (sel : List Str)
    → aliases_at cs is ≡ ok sel
    → sel ≡ map (alias_at cs) is
unfolding aliases_at
aliases_at-map cs [] sel h = ground arith
aliases_at-map cs (i ∷ is) sel h =
    let (c, rest, found, later, e) = aliases_at-cons cs i is sel h in
    ground (arith, aliases_at-map cs is rest later)

-- The alias at a place of the selection is that of the candidate whose index stands there.
aliases_at-place :
    (cs : List RouteCandidate) (is : List ℕ) (sel : List Str) (k i : ℕ)
    → aliases_at cs is ≡ ok sel
    → get_elem? is k ≡ some i
    → get_elem? sel k ≡ some (alias_at cs i)
aliases_at-place cs is sel k i h g =
    rw (aliases_at-map cs is sel h) (get_elem?-map (alias_at cs) is k {x = i} g)

fallback_decisions-cons :
    (primary : ℕ) (is : List ℕ) (k : ℕ) (c : RouteCandidate) (cs : List RouteCandidate)
    (ds : List RouteDecision)
    → fallback_decisions primary is k (c ∷ cs) ≡ ok ds
    → (order : ℕ) × (rest : List RouteDecision) × (position (λ i. i == k) is ≡ some order)
      × (fallback_decisions primary is (suc k) cs ≡ ok rest)
      × (ds
          ≡ decision c true
              (some order)
              (if k == primary then "primary fallback target" else "fallback candidate")
              []
              []
            ∷ rest)
unfolding fallback_decisions
fallback_decisions-cons primary is k c cs ds h = ground arith

module _ (input : RoutePlanInput) (primary : ℕ) (is : List ℕ) (sel : List Str)
    (selected : aliases_at input.candidates is ≡ ok sel) where
  fallback_decisions-in_order :
      (k : ℕ) (cs : List RouteCandidate) (ds : List RouteDecision)
      → fallback_decisions primary is k cs ≡ ok ds
      → (map (λ d. d.alias) ds ≡ aliases cs) × (count_by (λ d. d.selected) ds ≡ length cs)
  unfolding fallback_decisions
  fallback_decisions-in_order k [] ds h = ground arith
  fallback_decisions-in_order k (c ∷ cs) ds h =
      let (order, rest, found, later, e) = fallback_decisions-cons primary is k c cs ds h in
      ground (arith, fallback_decisions-in_order (suc k) cs rest later)

  fallback_decisions-Placed :
      (k : ℕ) (cs : List RouteCandidate) (ds : List RouteDecision)
      → ((i j : ℕ) (c : RouteCandidate)
          → j ≡ k + i
          → get_elem? cs i ≡ some c
          → get_elem? input.candidates j ≡ some c)
      → fallback_decisions primary is k cs ≡ ok ds
      → All (Placed sel) ds
  unfolding fallback_decisions
  fallback_decisions-Placed k [] ds at h =
      let e : [] ≡ ds = ok-injective h in subst (All (Placed sel)) e tt
  fallback_decisions-Placed k (c ∷ cs) ds at h =
      let (order, rest, found, later, e) = fallback_decisions-cons primary is k c cs ds h in
      let (o, i, eo, here, hit) = position_from_sound 0 (λ i. i == k) is found in
      subst (All (Placed sel)) (sym e) (
        (
          refl,
          ground (
            arith,
            aliases_at-place input.candidates is sel o i selected here,
            at 0 k c (omega arith) refl,
          ),
        ),
        fallback_decisions-Placed (suc k) cs rest (λ i j x e' g. at (suc i) j x (omega arith) g)
            later,
      )

pub preferred_index-lt :
    (input : RoutePlanInput) (i : ℕ)
    → 0 < length input.candidates
    → preferred_index_or_first input ≡ ok i
    → i < length input.candidates
unfolding preferred_index_or_first
preferred_index-lt input i pos h = elim (Option-cases input.preferred_agent) [
  | inl absent ↦ ground arith
  | inr (a, given) ↦
      let (j, c, e, found, same) =
        position_from_sound 0 (λ (c : RouteCandidate). str_eq c.alias a) input.candidates {j = i}
          (ground arith) in
      omega (arith, get_elem?-lt input.candidates j found)
]

length-others :
    (primary k : ℕ) (cs : List RouteCandidate)
    → k ≤ primary
    → primary < k + length cs
    → suc (length (others primary (indices_from k cs))) ≡ length cs
length-others primary k [] l h = absurd (omega arith)
length-others primary k (c ∷ cs) l h = ground (
  arith,
  length-others primary (suc k) cs,
  others-below primary (suc k) cs,
  length-map_from (suc k) (λ i (c : RouteCandidate). i) cs,
)

aliases_at-indices :
    (all : List RouteCandidate) (k : ℕ) (cs : List RouteCandidate)
    → ((i j : ℕ) (c : RouteCandidate)
        → j ≡ k + i
        → get_elem? cs i ≡ some c
        → get_elem? all j ≡ some c)
    → map (alias_at all) (indices_from k cs) ≡ aliases cs
aliases_at-indices all k [] at = refl
aliases_at-indices all k (c ∷ cs) at = ground (
  arith,
  at 0 k c (omega arith) refl,
  aliases_at-indices all (suc k) cs (λ i j x e g. at (suc i) j x (omega arith) g),
)

module _ (input : RoutePlanInput) (p : RoutePlan) (pos : 0 < length input.candidates)
    (h : explain_fallback input ≡ ok p) where
  -- The parts of a fallback plan.
  fallback_parts :
      (primary : ℕ) × (sel : List Str) × (ds : List RouteDecision) × (preferred_index_or_first input
        ≡ ok primary)
      × (aliases_at input.candidates (fallback_indices primary input.candidates) ≡ ok sel)
      × (fallback_decisions primary (fallback_indices primary input.candidates) 0 input.candidates
          ≡ ok ds)
      × (p ≡ plan input "ordered_attempts" "selected" sel ds none none)
  unfolding explain_fallback
  fallback_parts = ground arith

  length-selected :
      (primary : ℕ) (sel : List Str)
      → preferred_index_or_first input ≡ ok primary
      → aliases_at input.candidates (fallback_indices primary input.candidates) ≡ ok sel
      → length sel ≡ length input.candidates
  unfolding fallback_indices
  length-selected primary sel e chosen = rw (aliases_at-map input.candidates _ sel chosen) (
      rw length-map (
        length-others primary 0 input.candidates (omega arith)
          (omega (arith, preferred_index-lt input primary pos e))))

  pub explain_fallback-IsConsistent : IsConsistent input p
  unfolding plan
  explain_fallback-IsConsistent =
      let (primary, sel, ds, e, chosen, made, shape) = fallback_parts in
      let (names, count) = fallback_decisions-in_order input primary _ sel chosen 0 _ ds made in
      subst (IsConsistent input) (sym shape) (record {
        policy_kept = refl;
        total = refl;
        in_order = names;
        placed =
            fallback_decisions-Placed input primary _ sel chosen 0 input.candidates ds
              (λ i j c e' g. let same : j ≡ i = omega arith in rw same g) made;
        counted = count ∙ sym (length-selected primary sel e chosen);
      })

  -- A plan of the fallback policy for one candidate or more selects every candidate once, the
  -- primary first: a candidate with the alias of the preferred agent, if there is one, and otherwise
  -- the first candidate.
  pub explain_fallback-perm :
      (primary : ℕ) × (c : RouteCandidate) × (get_elem? input.candidates primary ≡ some c)
      × (((input.preferred_agent ≡ none) × (primary ≡ 0)) ⊎ (input.preferred_agent ≡ some c.alias))
      × (get_elem? p.selected 0 ≡ some c.alias)
      × Perm p.selected (aliases input.candidates)
  unfolding plan fallback_indices
  explain_fallback-perm =
      let (primary, sel, ds, e, chosen, made, shape) = fallback_parts in
      let below = preferred_index-lt input primary pos e in
      let (c, found) = get_elem?-some input.candidates primary below in
      let place = aliases_at-place input.candidates _ sel 0 primary chosen refl in
      let permuted =
        Perm.map (alias_at input.candidates)
          (fallback_indices-perm primary 0 input.candidates (omega arith) (omega arith)) in
      let mapped = aliases_at-map input.candidates _ sel chosen in
      let named =
        aliases_at-indices input.candidates 0 input.candidates
          (λ i j x e' g. let same : j ≡ i = omega arith in rw same g) in
      let wanted : ((input.preferred_agent ≡ none) × (primary ≡ 0))
          ⊎ (input.preferred_agent ≡ some c.alias) =
        elim (Option-cases input.preferred_agent) [
          | inl absent ↦ inl (absent, unfold preferred_index_or_first in ground arith)
          | inr (a, given) ↦
              inr (given ∙ ap some (sym (preferred_index-alias input a primary c given e found)))
        ] in
      (primary, c, found, wanted, ground arith, rw (shape, mapped) (subst (Perm _) named permuted))
