-- ===== src/Cli/Reduce/Examples.antt =====
-- Reductions of crates/missive-cli/src/reduce.rs over three inputs, two of which agree up to case and
-- spaces.
use missive.Common.{◌≡◌, refl, ◌⊎◌, none, some, List, [], ◌∷◌, count_by}
use missive.Common.Str.{Str, lit, to_ascii_lowercase, is_whitespace, to_ascii_lowercase_char}
use missive.Core.Error.{ok, err, Returns, validation_error}
use missive.Cli.Reduce.{
  ReduceStrategy, InputStatus, ReduceInputView, ReduceOperation, gathered_inputs,
  normalize_vote_text, split_from,
}
use missive.Cli.Reduce.Vote.{Tally, local_vote, tally_inputs, vote_report, total_votes}
use missive.Cli.Reduce.Tallies.{votes}
use missive.Cli.Reduce.Plurality.{IsPlurality, local_vote-IsPlurality}
use missive.Cli.Reduce.Reducer.{ReduceArgs, run_reducer, run_reducer-Returns, validate_reduce_args}

abbrev answer : Str → Str → ReduceInputView
answer agent text = record {
  agent = agent;
  rank = lit "r";
  status = InputStatus.gathered;
  task_id = some (lit "t");
  text = some text;
  message_count = 1;
  artifact_count = 0;
  artifact_ids = [];
}

abbrev provenance : List ReduceInputView
provenance =
    answer (lit "x") (lit "Yes") ∷ answer (lit "y") (lit "no") ∷ answer (lit "z") (lit " yes ") ∷ []

abbrev quoted : Str → Str
quoted s = s

local_vote-IsPlurality_example :
    ((count_by votes (gathered_inputs provenance) ≡ 0)
      × (local_vote quoted provenance
          ≡ err (validation_error "vote reduction requires at least one text input")))
    ⊎ ((winner : Tally) × (local_vote quoted provenance
          ≡ ok (vote_report quoted winner (tally_inputs [] (gathered_inputs provenance))))
        × (total_votes (tally_inputs [] (gathered_inputs provenance))
            ≡ count_by votes (gathered_inputs provenance))
        × IsPlurality (gathered_inputs provenance) winner)
local_vote-IsPlurality_example = local_vote-IsPlurality quoted provenance

abbrev operation : ReduceOperation
operation = record { group = lit "crew"; context_id = lit "c" }

abbrev custom_args : ReduceArgs
custom_args = record {
  strategy = ReduceStrategy.custom;
  template = some (lit "{inputs}");
  reducer_agent = none;
  command = none;
}

custom_args-valid : validate_reduce_args custom_args ≡ ok tt
unfolding validate_reduce_args
custom_args-valid = refl

run_reducer-Returns_example : Returns (
    run_reducer quoted
      (λ alias prompt. ok prompt)
      (λ shell_line prompt. ok prompt)
      custom_args
      operation
      provenance)
run_reducer-Returns_example =
    run_reducer-Returns quoted (λ alias prompt. ok prompt) (λ shell_line prompt. ok prompt)
      custom_args operation provenance custom_args-valid refl refl

normalize_vote_text-spaces : normalize_vote_text (lit "  Yes,  We ") ≡ lit "yes, we"
unfolding normalize_vote_text to_ascii_lowercase split_from is_whitespace to_ascii_lowercase_char
normalize_vote_text-spaces = refl
