-- ===== src/Cli/FileNames/Examples.antt =====
-- Exports of crates/missive-cli/src/gather.rs: one member has two artifacts of one name, which tries to
-- leave the directory.
use missive.Common.{◌≡◌, refl, none, some, List, [], ◌∷◌, map}
use missive.Common.Str.{
  Str, lit, str_eq, trim_matches, trim_end_matches, trim_start_matches, to_ascii_lowercase,
  to_ascii_lowercase_char, ends_with, starts_with, str_cmp,
}
use missive.Common.Set.{set_insert}
use missive.Common.Decimal.{digits_onto, show_decimal}
use missive.Core.Error.{Result, ok}
use missive.Cli.FileNames.{
  PartContent, ArtifactRecord, Gathered, ExportPlan, artifact_places, plan_gather_artifact_exports,
  sanitize_file_name, plan_places, unique_member_artifact_file_name, safe_file_name,
  unique_file_name, sanitize_path_component, payload_extension, extension_for_mime, after_separator,
  file_stem, first_free, first_part_filename, path_extension, path_file_name, rsplit_dot, suffixed,
}
use missive.Cli.FileNames.Exports.{IsPlanOf, plan_gather_artifact_exports-IsPlanOf}

abbrev report : ArtifactRecord
report = record {
  artifact_id = lit "a1";
  name = some (lit "../../etc/report");
  mime_type = some (lit "text/markdown");
  parts = ok (record { content = PartContent.text; filename = none } ∷ []);
}

abbrev gathered : Gathered
gathered = (record { agent_alias = lit "x"; rank_name = lit "r0" }, report ∷ report ∷ []) ∷ []

abbrev file_names : Result (List ExportPlan) → List Str
file_names (ok plans) = map (λ plan. plan.file_name) plans
file_names _ = []

file_names-gathered :
    file_names (plan_gather_artifact_exports gathered)
    ≡ lit "r0-x-report.md" ∷ lit "r0-x-report-2.md" ∷ []
unfolding plan_places artifact_places unique_member_artifact_file_name safe_file_name
    unique_file_name set_insert str_eq sanitize_path_component trim_matches trim_end_matches
    trim_start_matches sanitize_file_name payload_extension extension_for_mime to_ascii_lowercase
    to_ascii_lowercase_char ends_with after_separator file_stem first_free first_part_filename
    path_extension path_file_name rsplit_dot suffixed digits_onto show_decimal starts_with str_cmp
file_names-gathered = refl

plan_gather_artifact_exports-IsPlanOf_example :
    (plans : List ExportPlan) × (plan_gather_artifact_exports gathered ≡ ok plans)
    × IsPlanOf (artifact_places 0 gathered) [] plans
unfolding artifact_places
plan_gather_artifact_exports-IsPlanOf_example =
    plan_gather_artifact_exports-IsPlanOf gathered ((_, refl), ((_, refl), tt))
