-- ===== src/Cli/Reduce/Rank.antt =====
-- crates/missive-cli/src/reduce.rs: the ranking.
use missive.Common.{
  ℕ, ◌+◌, compare, Ordering, List, [], ◌∷◌, map_from, sort_by, ◌≡◌, true, false, arith, IsSorted,
  sort_by-IsSorted, In, In-sort_by, sort_by-In, length, length-sort_by, is_gt, filter_by-In,
  In-filter_by, ◌↔◌,
}
use missive.Common.Str.{Str, lit, str_cmp, str_cmp-flip}
use missive.Common.Decimal.{show_decimal}
use missive.Cli.Reduce.{
  ReduceInputView, ReduceOperation, has_output, gathered_inputs, concat, join_texts, newline,
  input_rank_score, input_text_or_reference,
}
use missive.Cli.Reduce.Vote.{then_with}

-- The greater score first, then by rank and agent.
unfoldable pub compare_ranks : ReduceInputView → ReduceInputView → Ordering
compare_ranks left right =
    then_with (compare (input_rank_score right) (input_rank_score left))
      (then_with (str_cmp left.rank right.rank) (str_cmp left.agent right.agent))

unfoldable pub ranked_inputs : List ReduceInputView → List ReduceInputView
ranked_inputs provenance = sort_by compare_ranks (gathered_inputs provenance)

unfoldable pub rank_line : ℕ → ReduceInputView → Str
rank_line index input = concat (
    show_decimal (index + 1)
    ∷ lit ". "
    ∷ input.rank
    ∷ lit " ("
    ∷ input.agent
    ∷ lit ") — score "
    ∷ show_decimal (input_rank_score input)
    ∷ lit " — "
    ∷ input_text_or_reference input
    ∷ [])

unfoldable pub local_rank : ReduceOperation → List ReduceInputView → Str
local_rank operation provenance = join_texts newline (
    concat (
      lit "Ranked outputs for group '"
      ∷ operation.group
      ∷ lit "' in context '"
      ∷ operation.context_id
      ∷ lit "':"
      ∷ [])
    ∷ map_from 0 rank_line (ranked_inputs provenance))

compare_ranks-flip :
    (x y : ReduceInputView) → is_gt (compare_ranks x y) ≡ true → is_gt (compare_ranks y x) ≡ false
unfolding compare_ranks
compare_ranks-flip x y h = ground (arith, str_cmp-flip x.rank y.rank, str_cmp-flip x.agent y.agent)

-- The ranking lists every gathered input, and nothing else, as many times as it was given, with no
-- neighbours in the wrong order: the greater score comes first, at the same score the lesser rank, and
-- at the same rank the lesser agent.
pub ranked_inputs-IsSorted :
    (provenance : List ReduceInputView)
    → IsSorted compare_ranks (ranked_inputs provenance)
      × (length (ranked_inputs provenance) ≡ length (gathered_inputs provenance))
      × ((input : ReduceInputView)
          → In input (ranked_inputs provenance) ↔ (In input provenance × (has_output input ≡ true)))
unfolding ranked_inputs
ranked_inputs-IsSorted provenance = (
  sort_by-IsSorted compare_ranks compare_ranks-flip (gathered_inputs provenance),
  length-sort_by compare_ranks (gathered_inputs provenance),
  λ input. (
    λ m.
        filter_by-In has_output input provenance
          (sort_by-In compare_ranks input (gathered_inputs provenance) m),
    λ (m, g).
        In-sort_by compare_ranks input (gathered_inputs provenance)
          (In-filter_by has_output input provenance g m),
  ),
)
