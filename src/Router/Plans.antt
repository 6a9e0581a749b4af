-- ===== src/Router/Plans.antt =====
-- What the plans of crates/missive-router/src/lib.rs have in common: the decisions agree with the
-- list of selected aliases.
pub mod Single
pub mod Every
pub mod Fallback
pub mod Rows
pub mod Indices
pub mod Filter
pub mod Choice
pub mod Route
pub mod Matching
pub mod Totality
use missive.Common.{
  ℕ, zero, suc, ◌+◌, ◌≤◌, ◌<◌, ◌≡◌, refl, Bool, true, false, Option, none, some, List, [], ◌∷◌, map,
  length, get_elem?, count_by, map_from, All, arith, ◌==◌, if◌then◌else◌,
}
use missive.Common.Str.{Str}
use missive.Router.Types.{RouteCandidate, RoutePlanInput, RouteDecision, RoutePlan}

abbrev pub aliases : List RouteCandidate → List Str
aliases = map (λ c. c.alias)

-- A decision with an order is selected and stands at that place among the selected aliases; one
-- without is not selected.
abbrev pub Placed : List Str → RouteDecision → Type 0
Placed selected d = elim d.order [
  | none ↦ d.selected ≡ false
  | some k ↦ (d.selected ≡ true) × (get_elem? selected k ≡ some d.alias)
]

pub record IsConsistent (input : RoutePlanInput) (p : RoutePlan) : Type 0 where
  pub policy_kept : p.policy ≡ input.policy
  pub total : p.total_candidates ≡ length input.candidates
  pub in_order : map (λ d. d.alias) p.decisions ≡ aliases input.candidates
  pub placed : All (Placed p.selected) p.decisions
  pub counted : count_by (λ d. d.selected) p.decisions ≡ length p.selected

module _ (f : ℕ → RouteCandidate → RouteDecision) (chosen : ℕ)
    (is_chosen : (i : ℕ) (c : RouteCandidate) → (f i c).selected ≡ (i == chosen)) where
  count-none :
      (k : ℕ) (cs : List RouteCandidate)
      → chosen < k
      → count_by (λ d. d.selected) (map_from k f cs) ≡ 0
  count-none k [] h = refl
  count-none k (c ∷ cs) h = ground (arith, is_chosen k c, count-none (suc k) cs)

  pub count-one :
      (k : ℕ) (cs : List RouteCandidate)
      → k ≤ chosen
      → chosen < k + length cs
      → count_by (λ d. d.selected) (map_from k f cs) ≡ 1
  count-one k [] l h = absurd (omega arith)
  count-one k (c ∷ cs) l h =
      ground (arith, is_chosen k c, count-none (suc k) cs, count-one (suc k) cs)

pub count-all :
    (f : ℕ → RouteCandidate → RouteDecision) (k : ℕ) (cs : List RouteCandidate)
    → ((i : ℕ) (c : RouteCandidate) → (f i c).selected ≡ true)
    → count_by (λ d. d.selected) (map_from k f cs) ≡ length cs
count-all f k [] h = refl
count-all f k (c ∷ cs) h = ground (arith, h k c, count-all f (suc k) cs h)
