-- ===== src/Cli/Reduce/Tallies.antt =====
-- crates/missive-cli/src/reduce.rs: the vote counts every text once, and its winner has the most votes.
use missive.Common.{
  ℕ, suc, ◌+◌, Bool, true, false, none, some, List, [], ◌∷◌, ◌≡◌, refl, arith, count_by,
  if◌then◌else◌,
}
use missive.Common.Str.{Str, str_eq, str_cmp-eq}
use missive.Cli.Reduce.{ReduceInputView, normalize_vote_text}
use missive.Cli.Reduce.Vote.{Tally, cast_vote, source_of, tally_inputs, total_votes}

-- The votes that a key has in the tallies.
abbrev pub votes_of : Str → List Tally → ℕ
votes_of key [] = 0
votes_of key (tally ∷ tallies) =
    let rest = votes_of key tallies in
    if str_eq key tally.normalized then tally.count + rest else rest

-- The inputs that vote for a key.
abbrev pub votes_for : Str → ReduceInputView → Bool
votes_for key input = elim input.text [
  | none ↦ false
  | some text ↦ str_eq key (normalize_vote_text text)
]

abbrev pub votes : ReduceInputView → Bool
votes input = elim input.text [ none ↦ false | some text ↦ true ]

votes_of-cast_vote :
    (key normalized text source : Str) (tallies : List Tally)
    → votes_of key (cast_vote normalized text source tallies)
      ≡ (if str_eq key normalized then 1 else 0) + votes_of key tallies
unfolding cast_vote
votes_of-cast_vote key normalized text source [] = ground arith
votes_of-cast_vote key normalized text source (tally ∷ tallies) = ground (
  arith,
  votes_of-cast_vote key normalized text source tallies,
  str_cmp-eq normalized tally.normalized,
)

total_votes-cast_vote :
    (normalized text source : Str) (tallies : List Tally)
    → total_votes (cast_vote normalized text source tallies) ≡ 1 + total_votes tallies
unfolding cast_vote
total_votes-cast_vote normalized text source [] = refl
total_votes-cast_vote normalized text source (tally ∷ tallies) =
    ground (arith, total_votes-cast_vote normalized text source tallies)

pub votes_of-tally_inputs :
    (key : Str) (tallies : List Tally) (inputs : List ReduceInputView)
    → votes_of key (tally_inputs tallies inputs)
      ≡ votes_of key tallies + count_by (votes_for key) inputs
unfolding tally_inputs
votes_of-tally_inputs key tallies [] = omega arith
votes_of-tally_inputs key tallies (input ∷ inputs) =
    elim input.text
      as (λ t.
        votes_of key (
          tally_inputs
            (elim t [
              | none ↦ tallies
              | some text ↦ cast_vote (normalize_vote_text text) text (source_of input) tallies
            ])
            inputs)
        ≡ votes_of key tallies
          + (if elim t [ none ↦ false | some text ↦ str_eq key (normalize_vote_text text) ]
              then suc (count_by (votes_for key) inputs)
              else count_by (votes_for key) inputs)) [
                | none ↦ votes_of-tally_inputs key tallies inputs
                | some text ↦
                    let cast =
                      cast_vote (normalize_vote_text text) text (source_of input) tallies in
                    ground (
                      arith,
                      votes_of-tally_inputs key cast inputs,
                      votes_of-cast_vote key (normalize_vote_text text) text (source_of input)
                          tallies,
                    )
              ]

pub total_votes-tally_inputs :
    (tallies : List Tally) (inputs : List ReduceInputView)
    → total_votes (tally_inputs tallies inputs) ≡ total_votes tallies + count_by votes inputs
unfolding tally_inputs
total_votes-tally_inputs tallies [] = omega arith
total_votes-tally_inputs tallies (input ∷ inputs) =
    elim input.text
      as (λ t.
        total_votes (
          tally_inputs
            (elim t [
              | none ↦ tallies
              | some text ↦ cast_vote (normalize_vote_text text) text (source_of input) tallies
            ])
            inputs)
        ≡ total_votes tallies
          + (if elim t [ none ↦ false | some text ↦ true ]
              then suc (count_by votes inputs)
              else count_by votes inputs)) [
                | none ↦ total_votes-tally_inputs tallies inputs
                | some text ↦
                    let cast =
                      cast_vote (normalize_vote_text text) text (source_of input) tallies in
                    ground (
                      arith,
                      total_votes-tally_inputs cast inputs,
                      total_votes-cast_vote (normalize_vote_text text) text (source_of input)
                          tallies,
                    )
              ]
