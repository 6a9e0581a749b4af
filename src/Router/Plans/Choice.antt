-- ===== src/Router/Plans/Choice.antt =====
-- What the policies of crates/missive-router/src/lib.rs choose: the preferred or first candidate, the
-- candidate under the cursor, the heaviest one, a quorum.
use missive.Common.{
  ℕ, ◌+◌, ◌*◌, ◌/◌, ◌%◌, ◌≤◌, ◌<◌, ◌≡◌, subst, Bool, true, false, none, some, List, [], ◌∷◌, length,
  get_elem?, arith, if◌then◌else◌, inl, inr, ◌⊎◌, sym, ◌∙◌, ap, get_elem?-lt, position_from_sound,
  Option-cases, ◌↔◌, Bool-cases, ltb, max_by, max_by-greatest, is_gt, In, at, map_from-at,
  get_elem?-map, get_elem?-map_from, ◌-◌, zero, suc, refl, unwrap_or, get_elem?-some,
}
use native.Mathlib.Nat.{mod-add-mod, add-mod_right, mod-eq_of_lt, mod-lt}
use missive.Common.Str.{Str, str_eq, str_eq→eq}
use missive.Common.Float.{F64, total_key}
use missive.Common.Decimal.{u64_max}
use missive.Core.Error.{ok, expect}
use missive.Core.Error.Laws.{>>=-eq-ok}
use missive.Router.Types.{RouteCandidate, RoutePlanInput, RoutePlan}
use missive.Router.Policies.{
  explain_direct, explain_round_robin, explain_weighted, explain_quorum, preferred_index_or_first,
  compare_weights, indexed, next_cursor,
}
use missive.Router.Plans.{aliases}
use missive.Router.Plans.Single.{single_plan-ok, single_plan-selected}

-- No candidate of the list comes before the one at `i` by weight, or at the same weight by index.
abbrev pub IsHeaviest : List RouteCandidate → ℕ → RouteCandidate → Type 0
IsHeaviest cs i c =
    (j : ℕ) (d : RouteCandidate)
    → get_elem? cs j ≡ some d
    → (total_key d.weight < total_key c.weight)
      ⊎ ((total_key d.weight ≡ total_key c.weight) × (i ≤ j))

compare_weights_lem :
    (i j : ℕ) (c d : RouteCandidate)
    → (is_gt (compare_weights (i, c) (j, d)) ≡ false) ↔ (
        (total_key c.weight < total_key d.weight)
        ⊎ ((total_key c.weight ≡ total_key d.weight) × (j ≤ i)))
unfolding compare_weights
compare_weights_lem i j c d = ((λ h. ground arith), λ h. ground (arith, h))

compare_weights-total :
    (x y : ℕ × RouteCandidate)
    → is_gt (compare_weights x y) ≡ true
    → is_gt (compare_weights y x) ≡ false
unfolding compare_weights
compare_weights-total (i, c) (j, d) h = ground arith

compare_weights_trans :
    (x y z : ℕ × RouteCandidate)
    → is_gt (compare_weights x y) ≡ false
    → is_gt (compare_weights y z) ≡ false
    → is_gt (compare_weights x z) ≡ false
unfolding compare_weights
compare_weights_trans (i, c) (j, d) (k, e) h g = ground arith

compare_weights_refl : (x : ℕ × RouteCandidate) → is_gt (compare_weights x x) ≡ false
unfolding compare_weights
compare_weights_refl (i, c) = ground arith

indexed_of :
    (cs : List RouteCandidate) (x : ℕ × RouteCandidate)
    → In x (indexed cs)
    → get_elem? cs x.0 ≡ some x.1
indexed_of cs (i, c) (at k g) =
    let (j, d, e, found, shape) = map_from-at 0 (λ i (c : RouteCandidate). (i, c)) cs k g in
    let first : i ≡ j = ap (λ (t : ℕ × RouteCandidate). t.0) shape in
    let second : c ≡ d = ap (λ (t : ℕ × RouteCandidate). t.1) shape in
    let place : i ≡ k = omega arith in rw (place, second) found

pub max_by-IsHeaviest :
    (cs : List RouteCandidate) (i : ℕ) (c : RouteCandidate)
    → max_by compare_weights (indexed cs) ≡ some (i, c)
    → (get_elem? cs i ≡ some c) × IsHeaviest cs i c
max_by-IsHeaviest cs i c h =
    let (member, above) =
      max_by-greatest compare_weights compare_weights_refl compare_weights-total
        compare_weights_trans (indexed cs) (i, c) h in
    (
      indexed_of cs (i, c) member,
      λ j d g.
          (compare_weights_lem j i d c).0
            (above (j, d) (at j (get_elem?-map_from 0 _ cs j j (omega arith) g))),
    )

module _ (same_weight : F64 → F64 → Bool) (input : RoutePlanInput) (p : RoutePlan) where
  -- A plan of the weighted policy selects one candidate: no other has a greater weight, and those
  -- with the same weight stand behind it.
  pub explain_weighted-IsHeaviest :
      explain_weighted same_weight input ≡ ok p
      → (i : ℕ) × (c : RouteCandidate) × (get_elem? input.candidates i ≡ some c)
        × (p.selected ≡ c.alias ∷ [])
        × IsHeaviest input.candidates i c
  unfolding explain_weighted
  explain_weighted-IsHeaviest h =
      let rows = indexed input.candidates in
      let (best, e, made) = >>=-eq-ok (expect (max_by compare_weights rows)) _ h in
      let (c, found, selected, _, _) = single_plan-selected input best.0 _ _ p made in
      let (here, heaviest) = max_by-IsHeaviest input.candidates best.0 best.1 (ground arith) in
      let same : best.1 ≡ c = ground arith in
      (best.0, c, found, selected, subst (IsHeaviest input.candidates best.0) same heaviest)

pub preferred_index-alias :
    (input : RoutePlanInput) (a : Str) (i : ℕ) (c : RouteCandidate)
    → input.preferred_agent ≡ some a
    → preferred_index_or_first input ≡ ok i
    → get_elem? input.candidates i ≡ some c
    → c.alias ≡ a
unfolding preferred_index_or_first
preferred_index-alias input a i c given e found =
    let (j, d, place, here, hit) =
      position_from_sound 0 (λ (c : RouteCandidate). str_eq c.alias a) input.candidates {j = i}
        (ground arith) in
    let same : j ≡ i = omega arith in
    let one : d ≡ c = ground arith in
    subst (λ (z : RouteCandidate). z.alias ≡ a) one (str_eq→eq d.alias a hit)

module _ (input : RoutePlanInput) (p : RoutePlan) where
  -- A plan of the direct policy selects the preferred agent, which is one of the candidates, and
  -- without a preferred agent the first candidate.
  pub explain_direct-selected :
      explain_direct input ≡ ok p
      → ((a : Str) × (input.preferred_agent ≡ some a)
          × (p.selected ≡ a ∷ [])
          × In a (aliases input.candidates))
        ⊎ ((c : RouteCandidate) × (input.preferred_agent ≡ none)
            × (get_elem? input.candidates 0 ≡ some c)
            × (p.selected ≡ c.alias ∷ []))
  unfolding explain_direct
  explain_direct-selected h =
      let (i, e, made) = >>=-eq-ok (preferred_index_or_first input) _ h in
      let (c, found, selected, _, _) = single_plan-selected input i _ _ p made in
      elim (Option-cases input.preferred_agent) [
        | inl absent ↦ inr (c, absent, unfold preferred_index_or_first in ground arith, selected)
        | inr (a, given) ↦
            let same : c.alias ≡ a = preferred_index-alias input a i c given e found in
            inl (
              a,
              given,
              ground arith,
              at i (
                  get_elem?-map (λ (c : RouteCandidate). c.alias) input.candidates i {x = c} found
                  ∙ ap some same),
            )
      ]

  -- A quorum plan selects every candidate and asks for the requested number of them, which lies
  -- between one and all, or if none is requested for a majority.
  pub explain_quorum-bounds :
      explain_quorum input ≡ ok p
      → (q : ℕ) × (p.required_quorum ≡ some q)
        × (1 ≤ q)
        × (q ≤ length input.candidates)
        × (p.selected ≡ aliases input.candidates)
        × ((input.quorum ≡ some q)
            ⊎ ((input.quorum ≡ none)
                × (length input.candidates < 2 * q)
                × (2 * q ≤ length input.candidates + 2)))
  unfolding explain_quorum
  explain_quorum-bounds h = elim (Option-cases input.quorum) [
    | inl absent ↦ (
      length input.candidates / 2 + 1,
      ground arith,
      omega arith,
      ground arith,
      ground arith,
      inr (absent, omega arith, omega arith),
    )
    | inr (q, asked) ↦ (q, ground arith, ground arith, ground arith, ground arith, inl asked)
  ]

-- The distance from the cursor to an index, going round.
abbrev pub distance : ℕ → ℕ → ℕ → ℕ
distance n cursor i = if ltb i (cursor % n) then i + n - cursor % n else i - cursor % n

distance-lt : (n cursor i : ℕ) → i < n → distance n cursor i < n
distance-lt n cursor i h = ground arith

mod-around :
    (n cursor d i : ℕ)
    → i < n
    → (cursor % n + d ≡ i + n) ⊎ (cursor % n + d ≡ i)
    → (cursor + d) % n ≡ i
mod-around n cursor d i h (inl e) =
    sym (mod-add-mod cursor n d) ∙ ap (λ x. x % n) e ∙ add-mod_right i n ∙ mod-eq_of_lt h
mod-around n cursor d i h (inr e) =
    sym (mod-add-mod cursor n d) ∙ ap (λ x. x % n) e ∙ mod-eq_of_lt h

cursor_reaches : (n cursor i : ℕ) → i < n → (cursor + distance n cursor i) % n ≡ i
cursor_reaches n cursor i h =
    let small : cursor % n < n = mod-lt cursor (omega arith) in
    mod-around n cursor (distance n cursor i) i h (elim (Bool-cases (ltb i (cursor % n))) [
      | inl less ↦ inl (ground arith)
      | inr more ↦ inr (ground arith)
    ])

-- The input of the next call: the cursor is the one that the plan hands on.
abbrev pub handed_on : RoutePlanInput → RoutePlan → RoutePlanInput
handed_on input p = record input {
  round_robin_cursor = unwrap_or p.next_round_robin_cursor input.round_robin_cursor;
}

-- Calls of the round-robin policy, each with the cursor that the plan before it handed on, from the
-- first input to the input of the next call.
pub data Turns (input : RoutePlanInput) : ℕ → RoutePlanInput → Type 0 where
  at_first : Turns input 0 input
  turn :
      {k : ℕ} {last : RoutePlanInput} {p : RoutePlan}
      → Turns input k last
      → explain_round_robin last ≡ ok p
      → Turns input (suc k) (handed_on last p)

abbrev moved : RoutePlanInput → ℕ → RoutePlanInput
moved input k = record input { round_robin_cursor = input.round_robin_cursor + k }

moved-next :
    (input : RoutePlanInput) (k : ℕ) (p : RoutePlan)
    → input.round_robin_cursor + k < u64_max
    → p.next_round_robin_cursor ≡ some (next_cursor (input.round_robin_cursor + k))
    → handed_on (moved input k) p ≡ moved input (suc k)
moved-next input k p below e =
    let next : next_cursor (input.round_robin_cursor + k) ≡ input.round_robin_cursor + suc k =
      ground arith in
    rw (e, next) refl

-- So many turns are possible, and they move the cursor by one each.
calls_made :
    (input : RoutePlanInput) (k : ℕ)
    → 0 < length input.candidates
    → input.round_robin_cursor + k ≤ u64_max
    → Turns input k (moved input k)
unfolding explain_round_robin
calls_made input zero pos below =
    let none_moved : input.round_robin_cursor + 0 ≡ input.round_robin_cursor = omega arith in
    subst (λ c. Turns input 0 (record input { round_robin_cursor = c })) (sym none_moved) at_first
calls_made input (suc k) pos below =
    let (c, found) =
      get_elem?-some input.candidates _ (mod-lt (input.round_robin_cursor + k) pos) in
    let (p, made) = single_plan-ok (moved input k) _ _ _ c found in
    let (d, here, selected, handed, _) = single_plan-selected (moved input k) _ _ _ p made in
    subst (Turns input (suc k)) (moved-next input k p (omega arith) handed)
      (turn (calls_made input k pos (omega arith)) made)

-- While the cursor stays within a u64, each candidate is selected by one of the next calls of the
-- round-robin policy, of which there are as many as candidates, each call taking the cursor that
-- the plan before it handed on.
pub explain_round_robin-reaches :
    (input : RoutePlanInput) (i : ℕ) (c : RouteCandidate)
    → input.round_robin_cursor + length input.candidates ≤ u64_max
    → get_elem? input.candidates i ≡ some c
    → (k : ℕ) × (last : RoutePlanInput) × (p : RoutePlan) × (k < length input.candidates)
      × Turns input k last
      × (explain_round_robin last ≡ ok p)
      × (p.selected ≡ c.alias ∷ [])
unfolding explain_round_robin
explain_round_robin-reaches input i c bound found =
    let n = length input.candidates in
    let inside = get_elem?-lt input.candidates i found in
    let k = distance n input.round_robin_cursor i in
    let near = distance-lt n input.round_robin_cursor i inside in
    let place = cursor_reaches n input.round_robin_cursor i inside in
    let here : get_elem? input.candidates ((input.round_robin_cursor + k) % n) ≡ some c =
      subst (λ j. get_elem? input.candidates j ≡ some c) (sym place) found in
    let (p, made) = single_plan-ok (moved input k) _ _ _ c here in
    let (d, found', selected, _, _) = single_plan-selected (moved input k) _ _ _ p made in
    let same : d ≡ c = ground arith in
    (
      k,
      moved input k,
      p,
      near,
      calls_made input k (omega arith) (omega arith),
      made,
      selected ∙ ap (λ (z : RouteCandidate). z.alias ∷ []) same,
    )
