-- ===== src/Cli/FileNames/Exports.antt =====
-- crates/missive-cli/src/gather.rs: the plan to export the artifacts of all members.
use missive.Common.{
  or_else, unwrap_or, ℕ, ◌≡◌, refl, sym, ap, ◌∙◌, subst, inl, inr, true, false, List, [], ◌∷◌, ◌++◌,
  map, All,
}
use missive.Common.Str.{Str, lit}
use missive.Common.Set.{Set, contains, set_insert}
use missive.Core.Error.{ok, ◌>>=◌}
use missive.Cli.FileNames.{
  Part, ArtifactRecord, ArtifactPlace, ExportPlan, Gathered, artifact_places, plan_places,
  plan_gather_artifact_exports, safe_file_name, unique_file_name, sanitize_file_name,
  sanitize_path_component, unique_member_artifact_file_name, file_stem, path_extension,
  payload_extension, first_part_filename,
}
use missive.Cli.FileNames.Characters.{is_safe_name}
use missive.Cli.FileNames.Pieces.{
  sanitize_file_name-is_safe, payload_extension-chars, sanitize_path_component-is_safe,
  file_stem-is_safe, suffixed-is_safe, is_safe_name-append,
}
use missive.Cli.FileNames.Fresh.{IsNumbered, unique_file_name-fresh}

IsNumbered-is_safe :
    (base name : Str) → is_safe_name base ≡ true → IsNumbered base name → is_safe_name name ≡ true
unfolding IsNumbered
IsNumbered-is_safe base name h (inl e) = subst (λ s. is_safe_name s ≡ true) (sym e) h
IsNumbered-is_safe base name h (inr (n, e)) =
    let (stem, extension) = file_stem-is_safe base h in
    subst (λ s. is_safe_name s ≡ true) (sym e)
      (suffixed-is_safe (unwrap_or (file_stem base) (lit "artifact")) (path_extension base) n stem
        extension)

-- The JSON of the artifact is one.
abbrev pub IsReadable : ArtifactPlace → Type 0
IsReadable place = (parts : List Part) × (place.artifact.parts ≡ ok parts)

safe_file_name-is_safe :
    (artifact : ArtifactRecord) (parts : List Part)
    → artifact.parts ≡ ok parts
    → (base : Str) × (safe_file_name artifact ≡ ok base) × (is_safe_name base ≡ true)
unfolding safe_file_name
safe_file_name-is_safe artifact parts e =
    let extension = payload_extension parts artifact.mime_type in
    let preferred =
      unwrap_or (or_else artifact.name (first_part_filename artifact)) artifact.artifact_id in
    (
      sanitize_file_name preferred artifact.artifact_id extension,
      ap
          (λ r. r >>= λ ps. ok (
            sanitize_file_name preferred artifact.artifact_id
              (payload_extension ps artifact.mime_type)))
          e,
      sanitize_file_name-is_safe preferred artifact.artifact_id extension
          (payload_extension-chars parts artifact.mime_type),
    )

unique_member_artifact_file_name-fresh :
    (place : ArtifactPlace) (used : Set)
    → IsReadable place
    → (name : Str) × (unique_member_artifact_file_name place.member place.artifact used
        ≡ ok (name, set_insert name used))
      × (contains used name ≡ false)
      × (is_safe_name name ≡ true)
unfolding unique_member_artifact_file_name
unique_member_artifact_file_name-fresh place used (parts, e) =
    let (base, made, safe) = safe_file_name-is_safe place.artifact parts e in
    let prefix =
      sanitize_path_component (place.member.rank_name ++ b'-' ∷ place.member.agent_alias) in
    let (name, unique, fresh, numbered) = unique_file_name-fresh (prefix ++ b'-' ∷ base) used in
    (
      name,
      ap (λ r. r >>= λ base. unique_file_name (prefix ++ b'-' ∷ base) used) made ∙ unique,
      fresh,
      IsNumbered-is_safe (prefix ++ b'-' ∷ base) name
          (is_safe_name-append prefix base (sanitize_path_component-is_safe _) safe) numbered,
    )

abbrev pub plan_index : ExportPlan → ℕ × ℕ
plan_index plan = (plan.member_index, plan.artifact_index)

abbrev pub place_index : ArtifactPlace → ℕ × ℕ
place_index place = (place.member_index, place.artifact_index)

-- The files are in use neither before nor by one another.
abbrev pub AreFresh : Set → List ExportPlan → Type 0
AreFresh used [] = Unit {0}
AreFresh used (plan ∷ plans) =
    (contains used plan.file_name ≡ false) × AreFresh (set_insert plan.file_name used) plans

unfoldable pub IsPlanOf : List ArtifactPlace → Set → List ExportPlan → Type 0
IsPlanOf places used plans =
    (map plan_index plans ≡ map place_index places)
    × AreFresh used plans
    × All (λ plan. is_safe_name plan.file_name ≡ true) plans

plan_places-IsPlanOf :
    (places : List ArtifactPlace) (used : Set)
    → All IsReadable places
    → (plans : List ExportPlan) × (plan_places places used ≡ ok plans) × IsPlanOf places used plans
unfolding plan_places IsPlanOf
plan_places-IsPlanOf [] used h = ([], refl, (refl, tt, tt))
plan_places-IsPlanOf (place ∷ places) used (readable, more) =
    let (name, named, fresh, safe) = unique_member_artifact_file_name-fresh place used readable in
    let (plans, made, (indices, others, all_safe)) =
      plan_places-IsPlanOf places (set_insert name used) more in
    let plan : ExportPlan = record {
      member_index = place.member_index;
      artifact_index = place.artifact_index;
      file_name = name;
    } in
    (
      plan ∷ plans,
      rw named (rw made refl),
      (ap (◌∷◌ (place_index place)) indices, (fresh, others), (safe, all_safe)),
    )

-- When all artifacts can be read, the export is planned: there is one file for each artifact of each
-- member, in order; no file has the name of an earlier one; and each name is of safe characters
-- and neither empty nor one that starts with a dot, so that no file is outside the directory.
pub plan_gather_artifact_exports-IsPlanOf :
    (members : Gathered)
    → All IsReadable (artifact_places 0 members)
    → (plans : List ExportPlan) × (plan_gather_artifact_exports members ≡ ok plans)
      × IsPlanOf (artifact_places 0 members) [] plans
plan_gather_artifact_exports-IsPlanOf members h =
    plan_places-IsPlanOf (artifact_places 0 members) [] h
