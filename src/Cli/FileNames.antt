-- ===== src/Cli/FileNames.antt =====
-- crates/missive-cli/src/artifact.rs and gather.rs: the names of the files that artifacts are
-- exported to.
pub mod Characters
pub mod Pieces
pub mod Fresh
pub mod Exports
mod Examples
use missive.Common.{
  or_else, unwrap_or, ℕ, zero, suc, ◌+◌, Bool, true, false, not, ◌&&◌, ◌||◌, Option, none, some,
  List, [], ◌∷◌, ◌++◌, map, is_empty, any, length, leb, ◌==◌, if◌then◌else◌, filter_map_by,
  map_from,
}
use missive.Common.Str.{Str, lit, str_eq, starts_with, ends_with, trim_matches, to_ascii_lowercase}
use missive.Common.Set.{Set, contains, set_insert}
use missive.Common.Decimal.{show_decimal}
use missive.Core.Error.{Result, ok, err, hang, ◌>>=◌}
use missive.Cli.Barrier.{GroupMember}

pub data PartContent : Type 0 where
  raw text data_value url : PartContent

pub record Part : Type 0 where
  pub content : PartContent
  pub filename : Option Str

-- `parts` is what reading the artifact's JSON gives.
pub record ArtifactRecord : Type 0 where
  pub artifact_id : Str
  pub name : Option Str
  pub mime_type : Option Str
  pub parts : Result (List Part)

unfoldable pub extension_for_mime : Option Str → Option Str
extension_for_mime none = none
extension_for_mime (some mime_type) =
    let value = to_ascii_lowercase mime_type in
    if str_eq value (lit "application/json") || ends_with value (lit "+json")
    then some (lit "json")
    else if str_eq value (lit "text/markdown") || str_eq value (lit "text/x-markdown")
    then some (lit "md")
    else if starts_with value (lit "text/")
    then some (lit "txt")
    else if str_eq value (lit "application/octet-stream")
    then some (lit "bin")
    else if str_eq value (lit "image/png")
    then some (lit "png")
    else if str_eq value (lit "image/jpeg")
    then some (lit "jpg")
    else if str_eq value (lit "image/gif")
    then some (lit "gif")
    else none

abbrev pub is_raw : Part → Bool
is_raw part = elim part.content [ PartContent.raw ↦ true | _ ↦ false ]

abbrev pub is_text : Part → Bool
is_text part = elim part.content [ PartContent.text ↦ true | _ ↦ false ]

-- The extension in `artifact_payload`. Data, files that are referred to, and the rest are JSON.
unfoldable pub payload_extension : List Part → Option Str → Str
payload_extension parts mime_type =
    if any is_raw parts
    then unwrap_or (extension_for_mime mime_type) (lit "bin")
    else if any is_text parts
    then unwrap_or (extension_for_mime mime_type) (lit "txt")
    else lit "json"

-- The text behind the last separator, if there is one.
unfoldable pub after_separator : Str → Option Str
after_separator [] = none
after_separator (c ∷ s) =
    let deeper = after_separator s in
    elim deeper [
      | some leaf ↦ some leaf
      | none ↦ if (c == b'/') || (c == b'\\') then some s else none
    ]

-- `a` to `z`, `A` to `Z`, `0` to `9`, `-` and `_`.
abbrev pub is_word_char : ℕ → Bool
is_word_char c =
    (leb b'a' c && leb c b'z')
    || (leb b'A' c && leb c b'Z')
    || (leb b'0' c && leb c b'9')
    || (c == b'-')
    || (c == b'_')

abbrev pub is_file_char : ℕ → Bool
is_file_char c = is_word_char c || (c == b'.')

abbrev pub file_char : ℕ → ℕ
file_char c = if is_file_char c then c else b'_'

abbrev pub word_char : ℕ → ℕ
word_char c = if is_word_char c then c else b'_'

abbrev pub or_if_empty : Str → Str → Str
or_if_empty [] fallback = fallback
or_if_empty (c ∷ s) fallback = c ∷ s

-- The text before and behind the last dot.
unfoldable pub rsplit_dot : Str → Option (Str × Str)
rsplit_dot [] = none
rsplit_dot (c ∷ s) =
    let deeper = rsplit_dot s in
    elim deeper [
      | some (before, after) ↦ some (c ∷ before, after)
      | none ↦ if c == b'.' then some ([], s) else none
    ]

-- `Path::file_name` of a path with no separators.
unfoldable pub path_file_name : Str → Option Str
path_file_name path =
    if is_empty path || str_eq path (lit ".") || str_eq path (lit "..") then none else some path

-- `Path::file_stem` and `Path::extension` of such a path: a dot in front starts no extension.
abbrev pub stem_of : Str → Option (Str × Str) → Str
stem_of name none = name
stem_of name (some (before, after)) = or_if_empty before name

abbrev pub extension_of : Option (Str × Str) → Option Str
extension_of none = none
extension_of (some ([], after)) = none
extension_of (some (c ∷ before, after)) = some after

unfoldable pub file_stem : Str → Option Str
file_stem path = elim (path_file_name path) [
  | none ↦ none
  | some name ↦ some (stem_of name (rsplit_dot name))
]

unfoldable pub path_extension : Str → Option Str
path_extension path = elim (path_file_name path) [
  | none ↦ none
  | some name ↦ extension_of (rsplit_dot name)
]

abbrev pub is_none : Option Str → Bool
is_none none = true
is_none (some s) = false

unfoldable pub sanitize_file_name : Str → Str → Str → Str
sanitize_file_name input fallback extension =
    let leaf = or_if_empty (unwrap_or (after_separator input) input) fallback in
    let kept = trim_matches b'.' (map file_char leaf) in
    let sanitized = or_if_empty (or_if_empty kept (map word_char fallback)) (lit "artifact") in
    if not (is_empty extension) && is_none (path_extension sanitized)
    then sanitized ++ b'.' ∷ extension
    else sanitized

abbrev pub first_some : List Part → Option Str
first_some [] = none
first_some (part ∷ parts) = or_else part.filename (first_some parts)

unfoldable pub first_part_filename : ArtifactRecord → Option Str
first_part_filename record' = elim record'.parts [ ok parts ↦ first_some parts | _ ↦ none ]

unfoldable pub safe_file_name : ArtifactRecord → Result Str
safe_file_name artifact = do
  parts ← artifact.parts
  let preferred =
      unwrap_or (or_else artifact.name (first_part_filename artifact)) artifact.artifact_id
  ok (
      sanitize_file_name preferred artifact.artifact_id
        (payload_extension parts artifact.mime_type))

-- `format!("{stem}-{suffix}.{extension}")`, or without the extension.
abbrev pub after_suffix : Option Str → Str
after_suffix none = []
after_suffix (some extension) = b'.' ∷ extension

unfoldable pub suffixed : Str → Option Str → ℕ → Str
suffixed stem extension suffix = stem ++ b'-' ∷ (show_decimal suffix ++ after_suffix extension)

-- The loop over the suffixes.
unfoldable pub first_free : ℕ → (ℕ → Str) → ℕ → Set → Result (Str × Set)
first_free zero candidate suffix used_names = hang
first_free (suc fuel) candidate suffix used_names =
    let later = first_free fuel candidate (suc suffix) used_names in
    if contains used_names (candidate suffix)
    then later
    else ok (candidate suffix, set_insert (candidate suffix) used_names)

-- The name and the set with it. There is fuel for one suffix more than there are names.
unfoldable pub unique_file_name : Str → Set → Result (Str × Set)
unique_file_name base used_names =
    let numbered =
      first_free (suc (length used_names))
        (suffixed (unwrap_or (file_stem base) (lit "artifact")) (path_extension base)) 2
        used_names in
    if contains used_names base then numbered else ok (base, set_insert base used_names)

-- `export_artifacts` gives each artifact of a task a name.
unfoldable pub unique_safe_file_name : ArtifactRecord → Set → Result (Str × Set)
unique_safe_file_name artifact used_names =
    safe_file_name artifact >>= λ base. unique_file_name base used_names

unfoldable pub sanitize_path_component : Str → Str
sanitize_path_component value = or_if_empty (trim_matches b'.' (map file_char value)) (lit "member")

unfoldable pub unique_member_artifact_file_name :
    GroupMember → ArtifactRecord → Set → Result (Str × Set)
unique_member_artifact_file_name member artifact used_names = do
  base ← safe_file_name artifact
  let prefix = sanitize_path_component (member.rank_name ++ b'-' ∷ member.agent_alias)
  unique_file_name (prefix ++ b'-' ∷ base) used_names

pub record ArtifactPlace : Type 0 where
  pub member_index : ℕ
  pub artifact_index : ℕ
  pub member : GroupMember
  pub artifact : ArtifactRecord

-- The file name stands for the path, which joins it to the directory.
pub record ExportPlan : Type 0 where
  pub member_index : ℕ
  pub artifact_index : ℕ
  pub file_name : Str

-- The members, each with its artifacts.
abbrev pub Gathered : Type 0
Gathered = List (GroupMember × List ArtifactRecord)

-- What the two loops visit, in order.
unfoldable pub artifact_places : ℕ → Gathered → List ArtifactPlace
artifact_places member_index [] = []
artifact_places member_index ((member, artifacts) ∷ members) =
    map_from 0
      (λ artifact_index artifact. record {
        member_index = member_index;
        artifact_index = artifact_index;
        member = member;
        artifact = artifact;
      })
      artifacts
    ++ artifact_places (suc member_index) members

unfoldable pub plan_places : List ArtifactPlace → Set → Result (List ExportPlan)
plan_places [] used_names = ok []
plan_places (place ∷ places) used_names = do
  named ← unique_member_artifact_file_name place.member place.artifact used_names
  plans ← plan_places places named.1
  ok (
      record {
        member_index = place.member_index;
        artifact_index = place.artifact_index;
        file_name = named.0;
      }
      ∷ plans)

abbrev pub plan_gather_artifact_exports : Gathered → Result (List ExportPlan)
plan_gather_artifact_exports members = plan_places (artifact_places 0 members) []
