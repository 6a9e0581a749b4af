-- ===== src/Cli/Reduce.antt =====
-- crates/missive-cli/src/reduce.rs: what `missive reduce` makes of the outputs of a group without an
-- agent or a command.
--
-- `debug` stands for the `{:?}` of a string.
pub mod Vote
pub mod Rank
pub mod Tallies
pub mod Winner
pub mod Plurality
pub mod Reducer
mod Examples
use missive.Common.{
  unwrap_or, ℕ, zero, suc, ◌+◌, ◌-◌, ◌*◌, ◌^◌, ◌%◌, min, Bool, true, false, Option, none, some,
  List, [], ◌∷◌, ◌++◌, map, is_empty, length, count_by, filter_by, if◌then◌else◌, map_from,
}
use missive.Common.Str.{Str, lit, starts_with, trim, is_whitespace, to_ascii_lowercase}
use missive.Common.Decimal.{show_decimal}
use missive.Core.Error.{Result, ok, err, ◌>>=◌, ◌>>◌, fail_if, validation_error}

pub data ReduceStrategy : Type 0 where
  summarise vote merge rank custom : ReduceStrategy

unfoldable pub strategy_as_str : ReduceStrategy → Str
strategy_as_str ReduceStrategy.summarise = lit "summarise"
strategy_as_str ReduceStrategy.vote = lit "vote"
strategy_as_str ReduceStrategy.merge = lit "merge"
strategy_as_str ReduceStrategy.rank = lit "rank"
strategy_as_str ReduceStrategy.custom = lit "custom"

-- The `status` of an input is one of three texts.
pub data InputStatus : Type 0 where
  gathered missing_task empty_output : InputStatus

abbrev pub is_gathered : InputStatus → Bool
is_gathered InputStatus.gathered = true
is_gathered _ = false

abbrev pub status_as_str : InputStatus → Str
status_as_str InputStatus.gathered = lit "gathered"
status_as_str InputStatus.missing_task = lit "missing_task"
status_as_str InputStatus.empty_output = lit "empty_output"

-- Of the task its id, of the artifacts their ids.
pub record ReduceInputView : Type 0 where
  pub agent : Str
  pub rank : Str
  pub status : InputStatus
  pub task_id : Option Str
  pub text : Option Str
  pub message_count : ℕ
  pub artifact_count : ℕ
  pub artifact_ids : List Str

pub record ReduceOperation : Type 0 where
  pub group : Str
  pub context_id : Str

-- `join(separator)`.
abbrev pub join_texts : Str → List Str → Str
join_texts separator [] = []
join_texts separator (s ∷ []) = s
join_texts separator (s ∷ t ∷ texts) = s ++ separator ++ join_texts separator (t ∷ texts)

-- The parts of a `format!`.
abbrev pub concat : List Str → Str
concat [] = []
concat (s ∷ texts) = s ++ concat texts

abbrev pub newline : Str
newline = 10 ∷ []

abbrev pub has_output : ReduceInputView → Bool
has_output input = is_gathered input.status

abbrev pub gathered_inputs : List ReduceInputView → List ReduceInputView
gathered_inputs = filter_by has_output

unfoldable pub input_text_or_reference : ReduceInputView → Str
input_text_or_reference input = elim input.text [
  | some text ↦ text
  | none ↦
      let ids = join_texts (lit ", ") input.artifact_ids in
      if is_empty ids
      then lit "[no text output]"
      else concat (lit "[artifact output: " ∷ ids ∷ lit "]" ∷ [])
]

unfoldable pub summary_line : ReduceInputView → Str
summary_line input = concat (
    lit "- "
    ∷ input.rank
    ∷ lit " ("
    ∷ input.agent
    ∷ lit ", task "
    ∷ unwrap_or input.task_id (lit "missing")
    ∷ lit "): "
    ∷ input_text_or_reference input
    ∷ [])

unfoldable pub local_summary : ReduceOperation → List ReduceInputView → Str
local_summary operation provenance = join_texts newline (
    concat (
      lit "Summary for group '"
      ∷ operation.group
      ∷ lit "' in context '"
      ∷ operation.context_id
      ∷ lit "':"
      ∷ [])
    ∷ map summary_line (gathered_inputs provenance))

unfoldable pub merge_section : ReduceInputView → Str
merge_section input = concat (
    lit "## "
    ∷ input.rank
    ∷ lit " ("
    ∷ input.agent
    ∷ lit ")"
    ∷ newline
    ∷ input_text_or_reference input
    ∷ [])

unfoldable pub local_merge : ReduceOperation → List ReduceInputView → Str
local_merge operation provenance = join_texts (newline ++ newline) (
    concat (
      lit "Merged output for group '"
      ∷ operation.group
      ∷ lit "' in context '"
      ∷ operation.context_id
      ∷ lit "'."
      ∷ [])
    ∷ map merge_section (gathered_inputs provenance))

-- The lines of one input.
unfoldable pub markdown_lines : ReduceInputView → List Str
markdown_lines input =
    let head = concat (
      lit "### "
      ∷ input.rank
      ∷ lit " ("
      ∷ input.agent
      ∷ lit ")"
      ∷ newline
      ∷ lit "- status: "
      ∷ status_as_str input.status
      ∷ newline
      ∷ lit "- task: "
      ∷ unwrap_or input.task_id (lit "missing")
      ∷ newline
      ∷ lit "- messages: "
      ∷ show_decimal input.message_count
      ∷ newline
      ∷ lit "- artifacts: "
      ∷ show_decimal input.artifact_count
      ∷ []) in
    elim input.text [
      | some text ↦ head ∷ (newline ++ text) ∷ []
      | none ↦
          if is_empty input.artifact_ids
          then head ∷ []
          else head
            ∷ concat (
                newline
                ∷ lit "[artifact references: "
                ∷ join_texts (lit ", ") input.artifact_ids
                ∷ lit "]"
                ∷ [])
            ∷ []
    ]

abbrev pub all_lines : List ReduceInputView → List Str
all_lines [] = []
all_lines (input ∷ inputs) = markdown_lines input ++ all_lines inputs

unfoldable pub format_inputs_markdown : List ReduceInputView → Str
format_inputs_markdown provenance = join_texts (newline ++ newline) (all_lines provenance)

-- `split_whitespace`, with the word read so far.
unfoldable pub split_from : Str → Str → List Str
split_from word [] = if is_empty word then [] else word ∷ []
split_from word (c ∷ s) =
    let ended = split_from [] s in
    let longer = split_from (word ++ c ∷ []) s in
    if is_whitespace c then (if is_empty word then ended else word ∷ ended) else longer

unfoldable pub normalize_vote_text : Str → Str
normalize_vote_text text = to_ascii_lowercase (join_texts (lit " ") (split_from [] text))

-- The products saturate at the greatest `usize`, the sum wraps.
abbrev pub usize_max : ℕ
usize_max = 18446744073709551615

unfoldable pub input_rank_score : ReduceInputView → ℕ
input_rank_score input =
    let text_chars : ℕ = elim input.text [ none ↦ 0 | some text ↦ length text ] in
    (text_chars
      + min (input.artifact_count * 25) usize_max
      + min (input.message_count * 10) usize_max)
    % 2 ^ 64

-- `str::replace`: what stands for a match, with the number of its characters still to skip.
unfoldable pub replace_from : ℕ → Str → Str → Str → Str
replace_from skip needle value [] = []
replace_from (suc skip) needle value (c ∷ s) = replace_from skip needle value s
replace_from zero needle value (c ∷ s) =
    let matched = value ++ replace_from (length needle - 1) needle value s in
    let other = c ∷ replace_from 0 needle value s in
    if starts_with (c ∷ s) needle then matched else other

abbrev pub replace_all : List (Str × Str) → Str → Str
replace_all [] rendered = rendered
replace_all ((needle, value) ∷ replacements) rendered =
    replace_all replacements (replace_from 0 needle value rendered)

unfoldable pub render_template :
    Str → ReduceOperation → ReduceStrategy → List ReduceInputView → Str → Result Str
render_template template operation strategy provenance default_reduction = do
  let replacements =
      (lit "{{group}}", operation.group)
      ∷ (lit "{{context_id}}", operation.context_id)
      ∷ (lit "{{strategy}}", strategy_as_str strategy)
      ∷ (lit "{{input_count}}", show_decimal (count_by has_output provenance))
      ∷ (lit "{{inputs}}", format_inputs_markdown provenance)
      ∷ (lit "{{default_reduction}}", default_reduction)
      ∷ []
  let rendered = replace_all replacements template
  fail_if (is_empty (trim rendered)) (validation_error "rendered reduce template cannot be empty")
      >> ok rendered
