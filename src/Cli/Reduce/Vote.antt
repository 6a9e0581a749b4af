-- ===== src/Cli/Reduce/Vote.antt =====
-- crates/missive-cli/src/reduce.rs: the vote. The tallies stand in the order of their keys.
use missive.Common.{ℕ, ◌+◌, compare, Ordering, none, some, List, [], ◌∷◌, ◌++◌, map, max_by}
use missive.Common.Str.{Str, lit, str_cmp}
use missive.Common.Decimal.{show_decimal}
use missive.Core.Error.{Result, ok, err, ◌>>=◌, expect, validation_error}
use missive.Cli.Reduce.{
  ReduceInputView, gathered_inputs, concat, join_texts, newline, normalize_vote_text,
}

pub record Tally : Type 0 where
  pub normalized : Str
  pub count : ℕ
  pub original : Str
  pub sources : List Str

-- `entry(normalized).or_insert_with(…)`, and the vote.
unfoldable pub cast_vote : Str → Str → Str → List Tally → List Tally
cast_vote normalized text source [] =
    record { normalized = normalized; count = 1; original = text; sources = source ∷ [] } ∷ []
cast_vote normalized text source (tally ∷ tallies) =
    let later = tally ∷ cast_vote normalized text source tallies in
    let first : Tally = record {
      normalized = normalized;
      count = 1;
      original = text;
      sources = source ∷ [];
    } in
    elim (str_cmp normalized tally.normalized) [
      | Ordering.lt ↦ first ∷ tally ∷ tallies
      | Ordering.eq ↦
          record tally { count = tally.count + 1; sources = tally.sources ++ source ∷ [] } ∷ tallies
      | Ordering.gt ↦ later
    ]

abbrev pub source_of : ReduceInputView → Str
source_of input = concat (input.rank ∷ lit " (" ∷ input.agent ∷ lit ")" ∷ [])

unfoldable pub tally_inputs : List Tally → List ReduceInputView → List Tally
tally_inputs tallies [] = tallies
tally_inputs tallies (input ∷ inputs) =
    tally_inputs
      (elim input.text [
        | none ↦ tallies
        | some text ↦ cast_vote (normalize_vote_text text) text (source_of input) tallies
      ])
      inputs

-- The more votes, and at the same number the lesser key.
abbrev pub then_with : Ordering → Ordering → Ordering
then_with Ordering.lt b = Ordering.lt
then_with Ordering.eq b = b
then_with Ordering.gt b = Ordering.gt

abbrev pub compare_tallies : Tally → Tally → Ordering
compare_tallies left right =
    then_with (compare left.count right.count) (str_cmp right.normalized left.normalized)

abbrev pub total_votes : List Tally → ℕ
total_votes [] = 0
total_votes (tally ∷ tallies) = tally.count + total_votes tallies

module _ (debug : Str → Str) where
  unfoldable pub tally_line : Tally → Str
  tally_line tally = concat (
      lit "- "
      ∷ debug tally.original
      ∷ lit ": "
      ∷ show_decimal tally.count
      ∷ lit " vote(s) from "
      ∷ join_texts (lit ", ") tally.sources
      ∷ [])

  unfoldable pub vote_report : Tally → List Tally → Str
  vote_report winner tallies = join_texts newline (
      concat (
        lit "Vote result: "
        ∷ debug winner.original
        ∷ lit " received "
        ∷ show_decimal winner.count
        ∷ lit " of "
        ∷ show_decimal (total_votes tallies)
        ∷ lit " vote(s)."
        ∷ [])
      ∷ lit "Tallies:"
      ∷ map tally_line tallies)

  unfoldable pub report_vote : List Tally → Result Str
  report_vote [] = err (validation_error "vote reduction requires at least one text input")
  report_vote (tally ∷ tallies) = do
    winner ← expect (max_by compare_tallies (tally ∷ tallies))
    ok (vote_report winner (tally ∷ tallies))

  abbrev pub local_vote : List ReduceInputView → Result Str
  local_vote provenance = report_vote (tally_inputs [] (gathered_inputs provenance))
