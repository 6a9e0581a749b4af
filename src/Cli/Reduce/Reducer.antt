-- ===== src/Cli/Reduce/Reducer.antt =====
-- crates/missive-cli/src/reduce.rs: the choice of the reducer, and the text that it is given.
--
-- `run_agent_reducer` and `run_command_reducer` of the same file, which send the prompt to an agent
-- and to a process, are not modelled: they are arguments, of which nothing is assumed.
use missive.Common.{
  Bool, true, false, not, ◌&&◌, Option, none, some, List, [], ◌∷◌, any, if◌then◌else◌, ◌≡◌, arith,
}
use missive.Common.Str.{Str, lit}
use missive.Core.Error.{Result, ok, panic, ◌>>=◌, ◌>>◌, fail_if, validation_error, Returns}
use missive.Core.Error.Laws.{>>=-Returns}
use missive.Cli.Reduce.{
  ReduceStrategy, ReduceInputView, ReduceOperation, has_output, concat, newline, strategy_as_str,
  local_summary, local_merge, format_inputs_markdown, render_template, gathered_inputs,
}
use missive.Cli.Reduce.Vote.{Tally, local_vote, report_vote, tally_inputs}
use missive.Cli.Reduce.Rank.{local_rank}

pub record ReduceArgs : Type 0 where
  pub strategy : ReduceStrategy
  pub template : Option Str
  pub reducer_agent : Option Str
  pub command : Option Str

pub data ReduceMethod : Type 0 where
  agent command local : ReduceMethod

-- The views of an agent and a command are left out.
pub record ReductionResult : Type 0 where
  pub method : ReduceMethod
  pub prompt : Str
  pub template_applied : Bool
  pub reduced_text : Str

abbrev pub is_some : Option Str → Bool
is_some none = false
is_some (some s) = true

abbrev pub is_custom : ReduceStrategy → Bool
is_custom ReduceStrategy.custom = true
is_custom _ = false

unfoldable pub validate_reduce_args : ReduceArgs → Result (Unit {0})
validate_reduce_args args =
    fail_if (is_some args.reducer_agent && is_some args.command)
      (validation_error "missive reduce accepts either --reducer-agent or --command, not both")
    >> fail_if (is_custom args.strategy && not (is_some args.template))
        (validation_error "missive reduce --strategy custom requires --template")

unfoldable pub ensure_reduce_has_inputs : List ReduceInputView → Result (Unit {0})
ensure_reduce_has_inputs provenance =
    fail_if (not (any has_output provenance))
      (validation_error "missive reduce found no gathered member outputs in the selected context")

unfoldable pub reduction_instruction : ReduceStrategy → Result Str
reduction_instruction ReduceStrategy.summarise =
    ok (lit "Summarise the member outputs into one concise answer. Preserve source references.")
reduction_instruction ReduceStrategy.vote =
    ok (lit "Identify the majority answer, report the tally, and preserve source references.")
reduction_instruction ReduceStrategy.merge =
    ok (lit "Merge the member outputs into one coherent answer without dropping source references.")
reduction_instruction ReduceStrategy.rank =
    ok (lit "Rank the member outputs by usefulness and explain the ranking with source references.")
reduction_instruction ReduceStrategy.custom = panic

unfoldable pub reduction_prompt :
    ReduceArgs → ReduceOperation → List ReduceInputView → Str → Result Str
reduction_prompt args operation provenance default_reduction = elim args.template [
  | some template ↦ render_template template operation args.strategy provenance default_reduction
  | none ↦ do
    instruction ← reduction_instruction args.strategy
    ok (
        concat (
          lit "You are reducing outputs for missive group '"
          ∷ operation.group
          ∷ lit "' in context '"
          ∷ operation.context_id
          ∷ lit "'."
          ∷ newline
          ∷ lit "Strategy: "
          ∷ strategy_as_str args.strategy
          ∷ lit "."
          ∷ newline
          ∷ lit "Instruction: "
          ∷ instruction
          ∷ newline
          ∷ newline
          ∷ lit "Inputs:"
          ∷ newline
          ∷ format_inputs_markdown provenance
          ∷ newline
          ∷ newline
          ∷ lit "Deterministic local baseline:"
          ∷ newline
          ∷ default_reduction
          ∷ newline
          ∷ []))
]

module _ (debug : Str → Str) (run_agent_reducer run_command_reducer : Str → Str → Result Str) where
  unfoldable pub local_strategy_output :
      ReduceStrategy → ReduceOperation → List ReduceInputView → Result Str
  local_strategy_output ReduceStrategy.summarise operation provenance =
      ok (local_summary operation provenance)
  local_strategy_output ReduceStrategy.vote operation provenance = local_vote debug provenance
  local_strategy_output ReduceStrategy.merge operation provenance =
      ok (local_merge operation provenance)
  local_strategy_output ReduceStrategy.rank operation provenance =
      ok (local_rank operation provenance)
  local_strategy_output ReduceStrategy.custom operation provenance =
      ok (format_inputs_markdown provenance)

  -- Which reducer runs, with the prompt and the baseline made.
  unfoldable pub choose_reducer :
      Option Str → Option Str → Bool → Str → Str → Result ReductionResult
  choose_reducer (some alias) shell_line template_applied prompt default_reduction = do
    text ← run_agent_reducer alias prompt
    ok (record {
      method = ReduceMethod.agent;
      prompt = prompt;
      template_applied = template_applied;
      reduced_text = text;
    })
  choose_reducer none (some shell_line) template_applied prompt default_reduction = do
    text ← run_command_reducer shell_line prompt
    ok (record {
      method = ReduceMethod.command;
      prompt = prompt;
      template_applied = template_applied;
      reduced_text = text;
    })
  choose_reducer none none template_applied prompt default_reduction = ok (record {
    method = ReduceMethod.local;
    prompt = prompt;
    template_applied = template_applied;
    reduced_text = if template_applied then prompt else default_reduction;
  })

  unfoldable pub run_reducer :
      ReduceArgs → ReduceOperation → List ReduceInputView → Result ReductionResult
  run_reducer args operation provenance = do
    default_reduction ← local_strategy_output args.strategy operation provenance
    prompt ← reduction_prompt args operation provenance default_reduction
    choose_reducer args.reducer_agent args.command (is_some args.template) prompt default_reduction

  report_vote-Returns : (tallies : List Tally) → Returns (report_vote debug tallies)
  unfolding report_vote
  report_vote-Returns [] = tt
  report_vote-Returns (tally ∷ tallies) = tt

  local_strategy_output-Returns :
      (strategy : ReduceStrategy) (operation : ReduceOperation) (provenance : List ReduceInputView)
      → Returns (local_strategy_output strategy operation provenance)
  unfolding local_strategy_output
  local_strategy_output-Returns ReduceStrategy.summarise operation provenance = tt
  local_strategy_output-Returns ReduceStrategy.vote operation provenance =
      report_vote-Returns (tally_inputs [] (gathered_inputs provenance))
  local_strategy_output-Returns ReduceStrategy.merge operation provenance = tt
  local_strategy_output-Returns ReduceStrategy.rank operation provenance = tt
  local_strategy_output-Returns ReduceStrategy.custom operation provenance = tt

  reduction_prompt-Returns :
      (args : ReduceArgs) (operation : ReduceOperation) (provenance : List ReduceInputView)
      (baseline : Str)
      → validate_reduce_args args ≡ ok tt
      → Returns (reduction_prompt args operation provenance baseline)
  unfolding validate_reduce_args reduction_prompt reduction_instruction render_template
  reduction_prompt-Returns args operation provenance baseline h = ground arith

  choose_reducer-Returns :
      (alias shell_line : Option Str) (applied : Bool) (prompt baseline : Str)
      → alias ≡ none
      → shell_line ≡ none
      → Returns (choose_reducer alias shell_line applied prompt baseline)
  unfolding choose_reducer
  choose_reducer-Returns alias shell_line applied prompt baseline h k = rw (h, k) tt

  -- With arguments that pass `validate_reduce_args` and ask for no agent and no command,
  -- `run_reducer` comes back with a result or an error value: the text for a custom strategy is not
  -- asked for without a template, and a vote without a winner is an error.
  pub run_reducer-Returns :
      (args : ReduceArgs) (operation : ReduceOperation) (provenance : List ReduceInputView)
      → validate_reduce_args args ≡ ok tt
      → args.reducer_agent ≡ none
      → args.command ≡ none
      → Returns (run_reducer args operation provenance)
  unfolding run_reducer
  run_reducer-Returns args operation provenance valid no_agent no_command =
      >>=-Returns (local_strategy_output args.strategy operation provenance) _
        (local_strategy_output-Returns args.strategy operation provenance)
        (λ baseline made.
          >>=-Returns (reduction_prompt args operation provenance baseline) _
            (reduction_prompt-Returns args operation provenance baseline valid)
            (λ prompt asked.
              choose_reducer-Returns args.reducer_agent args.command (is_some args.template) prompt
                baseline no_agent no_command))
