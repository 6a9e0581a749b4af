-- ===== src/Cli/Gather.antt =====
-- crates/missive-cli/src/gather.rs: what `missive gather` reports of each member and of the group.
use missive.Common.{
  or_else, ℕ, ◌+◌, ◌≡◌, refl, Bool, true, false, not, ◌||◌, Option, none, some, List, [], ◌∷◌, map,
  length, is_empty, count_by, ltb, ◌==◌, if◌then◌else◌, arith, length-map,
}
use missive.Common.Str.{Str}
use missive.Store.Tasks.{TaskRecord}
use missive.Cli.FileNames.{ArtifactRecord}
use missive.Cli.Reduce.{InputStatus}

-- The texts are what reading the JSON of a message, of the task's status and of the artifacts gives.
pub record GatherMemberState : Type 0 where
  pub agent : Str
  pub rank : Str
  pub task : Option TaskRecord
  pub message_texts : List (Option Str)
  pub task_status_text : Option Str
  pub artifact_text : Option Str
  pub artifacts : List ArtifactRecord
  pub exported_artifacts : List Str

-- `iter().rev().find_map(…)`: the last text there is.
abbrev pub last_text : List (Option Str) → Option Str
last_text [] = none
last_text (text ∷ texts) = elim (last_text texts) [ some later ↦ some later | none ↦ text ]

abbrev pub has_task : Option TaskRecord → Bool
has_task none = false
has_task (some task) = true

abbrev pub has_text : Option Str → Bool
has_text none = false
has_text (some text) = true

unfoldable pub latest_member_text : GatherMemberState → Option Str
latest_member_text state =
    or_else (last_text state.message_texts)
      (or_else (if has_task state.task then state.task_status_text else none) state.artifact_text)

pub record GatherMemberView : Type 0 where
  pub agent : Str
  pub rank : Str
  pub status : InputStatus
  pub text : Option Str
  pub message_count : ℕ
  pub artifact_count : ℕ
  pub exported_artifact_count : ℕ

unfoldable pub from_state : GatherMemberState → GatherMemberView
unfolding latest_member_text
from_state state =
    let text = latest_member_text state in
    record {
      agent = state.agent;
      rank = state.rank;
      status =
          if not (has_task state.task)
          then InputStatus.missing_task
          else if has_text text
              || not (is_empty state.message_texts)
              || not (is_empty state.artifacts)
          then InputStatus.gathered
          else InputStatus.empty_output;
      text = text;
      message_count = length state.message_texts;
      artifact_count = length state.artifacts;
      exported_artifact_count = length state.exported_artifacts;
    }

pub data GatherStatus : Type 0 where
  succeeded partial missing : GatherStatus

-- Names, times and the message, which are only shown, are left out.
pub record GatherOutput : Type 0 where
  pub status : GatherStatus
  pub gathered_count : ℕ
  pub missing_count : ℕ
  pub empty_count : ℕ
  pub message_count : ℕ
  pub artifact_count : ℕ
  pub exported_artifact_count : ℕ
  pub members : List GatherMemberView

abbrev pub is_gathered : GatherMemberView → Bool
is_gathered view = elim view.status [ InputStatus.gathered ↦ true | _ ↦ false ]

abbrev pub is_missing : GatherMemberView → Bool
is_missing view = elim view.status [ InputStatus.missing_task ↦ true | _ ↦ false ]

abbrev pub is_empty_output : GatherMemberView → Bool
is_empty_output view = elim view.status [ InputStatus.empty_output ↦ true | _ ↦ false ]

abbrev pub sum_by : (GatherMemberView → ℕ) → List GatherMemberView → ℕ
sum_by f [] = 0
sum_by f (view ∷ views) = f view + sum_by f views

unfoldable pub finalize_gather_output : List GatherMemberState → GatherOutput
finalize_gather_output members =
    let views = map from_state members in
    let gathered_count = count_by is_gathered views in
    record {
      status =
          if gathered_count == length views
          then GatherStatus.succeeded
          else if ltb 0 gathered_count
          then GatherStatus.partial
          else GatherStatus.missing;
      gathered_count = gathered_count;
      missing_count = count_by is_missing views;
      empty_count = count_by is_empty_output views;
      message_count = sum_by (λ view. view.message_count) views;
      artifact_count = sum_by (λ view. view.artifact_count) views;
      exported_artifact_count = sum_by (λ view. view.exported_artifact_count) views;
      members = views;
    }

counts-length :
    (views : List GatherMemberView)
    → count_by is_gathered views + count_by is_missing views + count_by is_empty_output views
      ≡ length views
counts-length [] = refl
counts-length (view ∷ views) = ground (arith, counts-length views)

-- Every member of the group is counted once: as gathered, as one without a task, or as one whose task
-- has no output.
pub finalize_gather_output-counts :
    (members : List GatherMemberState)
    → let output = finalize_gather_output members in
      output.gathered_count + output.missing_count + output.empty_count ≡ length members
unfolding finalize_gather_output
finalize_gather_output-counts members =
    omega (arith, counts-length (map from_state members), length-map members from_state)
