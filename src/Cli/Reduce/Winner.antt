-- ===== src/Cli/Reduce/Winner.antt =====
-- crates/missive-cli/src/reduce.rs: the winner of the vote has the most votes.
use missive.Common.{
  ◌≤◌, Ordering, false, none, some, List, [], ◌∷◌, ◌≡◌, refl, sym, subst, ◌⊎◌, inl, inr, arith, All,
  In, at, In-cons, In-head, In-tail, Bool-cases,
}
use missive.Common.Str.{
  Str, str_eq, str_cmp, str_cmp-flip, str_cmp_refl, str_cmp_trans, str_eq→eq, str_eq_refl,
}
use missive.Cli.Reduce.{ReduceInputView, normalize_vote_text}
use missive.Cli.Reduce.Vote.{Tally, cast_vote, source_of, tally_inputs}
use missive.Cli.Reduce.Tallies.{votes_of}

-- Each key is below those behind it, and each tally has a vote.
abbrev pub Above : Str → List Tally → Type 0
Above key = All (λ tally. str_cmp key tally.normalized ≡ Ordering.lt)

abbrev pub Ascending : List Tally → Type 0
Ascending [] = Unit {0}
Ascending (tally ∷ tallies) = (1 ≤ tally.count) × Above tally.normalized tallies × Ascending tallies

Above-trans :
    (low key : Str) (tallies : List Tally)
    → str_cmp low key ≡ Ordering.lt
    → Above key tallies
    → Above low tallies
Above-trans low key [] h all = tt
Above-trans low key (tally ∷ tallies) h (first, rest) =
    (str_cmp_trans low key tally.normalized h first, Above-trans low key tallies h rest)

Above-cast_vote :
    (low normalized text source : Str) (tallies : List Tally)
    → str_cmp low normalized ≡ Ordering.lt
    → Above low tallies
    → Above low (cast_vote normalized text source tallies)
unfolding cast_vote
Above-cast_vote low normalized text source [] h all = (h, tt)
Above-cast_vote low normalized text source (tally ∷ tallies) h (first, rest) =
    ground (arith, Above-cast_vote low normalized text source tallies h rest)

Ascending-cast_vote :
    (normalized text source : Str) (tallies : List Tally)
    → Ascending tallies
    → Ascending (cast_vote normalized text source tallies)
unfolding cast_vote
Ascending-cast_vote normalized text source [] h = (omega arith, tt, tt)
Ascending-cast_vote normalized text source (tally ∷ tallies) (one, above, rest) = ground (
  arith,
  Ascending-cast_vote normalized text source tallies rest,
  Above-cast_vote tally.normalized normalized text source tallies,
  Above-trans normalized tally.normalized tallies,
  str_cmp-flip normalized tally.normalized,
)

pub Ascending-tally_inputs :
    (tallies : List Tally) (inputs : List ReduceInputView)
    → Ascending tallies
    → Ascending (tally_inputs tallies inputs)
unfolding tally_inputs
Ascending-tally_inputs tallies [] h = h
Ascending-tally_inputs tallies (input ∷ inputs) h =
    elim input.text
      as (λ t. Ascending (
        tally_inputs
          (elim t [
            | none ↦ tallies
            | some text ↦ cast_vote (normalize_vote_text text) text (source_of input) tallies
          ])
          inputs)) [
            | none ↦ Ascending-tally_inputs tallies inputs h
            | some text ↦
                Ascending-tally_inputs
                  (cast_vote (normalize_vote_text text) text (source_of input) tallies) inputs
                  (Ascending-cast_vote (normalize_vote_text text) text (source_of input) tallies h)
          ]

str_eq-lt : (key other : Str) → str_cmp key other ≡ Ordering.lt → str_eq key other ≡ false
str_eq-lt key other h = elim (Bool-cases (str_eq key other)) [
  | inr differs ↦ differs
  | inl same ↦
      let e = str_eq→eq key other same in
      absurd (ground (arith, str_cmp_refl key, subst (λ s. str_cmp key s ≡ Ordering.lt) (sym e) h))
]

str_eq_flip : (s t : Str) → str_eq s t ≡ false → str_eq t s ≡ false
str_eq_flip s t h = elim (Bool-cases (str_eq t s)) [
  | inr differs ↦ differs
  | inl same ↦
      subst (λ x. str_eq x s ≡ false) (sym (str_eq→eq t s same))
        (absurd
          (ground (arith, str_eq_refl s, subst (λ x. str_eq s x ≡ false) (str_eq→eq t s same) h)))
]

votes_of-Above : (key : Str) (tallies : List Tally) → Above key tallies → votes_of key tallies ≡ 0
votes_of-Above key [] h = refl
votes_of-Above key (tally ∷ tallies) (first, rest) =
    rw (str_eq-lt key tally.normalized first) (votes_of-Above key tallies rest)

Above-In :
    (key : Str) (tally : Tally) (tallies : List Tally)
    → Above key tallies
    → In tally tallies
    → str_cmp key tally.normalized ≡ Ordering.lt
Above-In key tally [] h (at i g) = absurd (ground arith)
Above-In key tally (first ∷ tallies) (here, later) m = elim (In-cons tally first tallies m) [
  | inl e ↦ subst (λ t. str_cmp key t.normalized ≡ Ordering.lt) e here
  | inr deep ↦ Above-In key tally tallies later deep
]

-- A tally has all the votes of its key.
pub votes_of-In :
    (tally : Tally) (tallies : List Tally)
    → Ascending tallies
    → In tally tallies
    → votes_of tally.normalized tallies ≡ tally.count
votes_of-In tally [] h (at i g) = absurd (ground arith)
votes_of-In tally (first ∷ tallies) (one, above, rest) m = elim (In-cons tally first tallies m) [
  | inl e ↦
      subst (λ t. votes_of t.normalized (first ∷ tallies) ≡ t.count) e
        (rw (str_eq_refl first.normalized)
          (omega (arith, votes_of-Above first.normalized tallies above)))
  | inr deep ↦
      let away = str_eq_flip first.normalized tally.normalized (
        str_eq-lt first.normalized tally.normalized
          (Above-In first.normalized tally tallies above deep)) in
      rw away (votes_of-In tally tallies rest deep)
]

-- A key with votes has a tally.
pub votes_of-found :
    (key : Str) (tallies : List Tally)
    → (votes_of key tallies ≡ 0) ⊎ ((tally : Tally) × In tally tallies × (tally.normalized ≡ key))
votes_of-found key [] = inl refl
votes_of-found key (tally ∷ tallies) = elim (Bool-cases (str_eq key tally.normalized)) [
  | inl same ↦ inr (tally, In-head tallies refl, sym (str_eq→eq key tally.normalized same))
  | inr differs ↦ elim (votes_of-found key tallies) [
    | inl none_left ↦ inl (rw differs none_left)
    | inr (found, m, e) ↦ inr (found, In-tail m, e)
  ]
]
