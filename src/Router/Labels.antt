-- ===== src/Router/Labels.antt =====
-- crates/missive-router/src/lib.rs: labels, their normal form, and labels read from metadata.
use missive.Common.{
  true, not, none, some, List, [], ◌∷◌, ◌++◌, map, is_empty, filter_by, if◌then◌else◌,
}
use missive.Common.Str.{Str, lit, trim, to_ascii_lowercase}
use missive.Common.Set.{Set, contains, set_insert, collect_set}
use missive.Core.Error.{Result, ok, ◌>>◌, fail_if, validation_error}
use missive.Core.Json.{
  Value, Items, Fields, null, boolean, number, text, array, object, nil, item, end, field, Metadata,
  metadata_get,
}

unfoldable pub normalize_label : Str → Str
normalize_label label = to_ascii_lowercase (trim label)

unfoldable pub normalized_set : List Str → Set
normalized_set labels = collect_set (map normalize_label labels)

-- The loop of `validate_labels`, over the labels seen so far.
unfoldable pub validate_from : Set → List Str → Result (Unit {0})
validate_from seen [] = ok tt
validate_from seen (label ∷ labels) =
    let normalized = normalize_label label in
    let rest = validate_from (set_insert normalized seen) labels in
    (do
      fail_if (is_empty normalized) (validation_error "{kind} labels cannot be empty")
      fail_if (contains seen normalized) (validation_error "duplicate {kind} label {:?}")
      rest)

unfoldable pub validate_labels : List Str → Result (Unit {0})
unfolding validate_from
validate_labels labels = validate_from [] labels

unfoldable pub intersection_in_required_order : List Str → Set → List Str
intersection_in_required_order required available =
    filter_by (contains available) (map normalize_label required)

-- `push_missing_requirements`: what it pushes onto `missing`, as `{kind}:{normalized}`.
unfoldable pub missing_labels : Str → List Str → Set → List Str
missing_labels kind [] available = []
missing_labels kind (requirement ∷ required) available =
    let normalized = normalize_label requirement in
    let rest = missing_labels kind required available in
    if not (contains available normalized) then (kind ++ (lit ":" ++ normalized)) ∷ rest else rest

insert_label : Str → Set → Set
insert_label raw labels =
    let label = normalize_label raw in
    if not (is_empty label) then set_insert label labels else labels

unfoldable mutual
  unfolding insert_label

  pub collect_labels : Value → Set → Set
  collect_labels (text label) labels = insert_label label labels
  collect_labels (array items) labels = collect_items items labels
  collect_labels (object fields) labels = collect_fields fields labels
  collect_labels null labels = labels
  collect_labels (boolean b) labels = labels
  collect_labels (number n) labels = labels

  pub collect_items : Items → Set → Set
  collect_items nil labels = labels
  collect_items (item v items) labels = collect_items items (collect_labels v labels)

  -- A key counts when its value is `true`; any other value is looked into.
  pub collect_fields : Fields → Set → Set
  collect_fields end labels = labels
  collect_fields (field key (boolean true) fields) labels =
      collect_fields fields (insert_label key labels)
  collect_fields (field key v fields) labels = collect_fields fields (collect_labels v labels)

collect_key : Metadata → Str → Set → Set
unfolding collect_labels
collect_key metadata key labels = elim (metadata_get key metadata) [
  | none ↦ labels
  | some v ↦ collect_labels v labels
]

unfoldable pub capabilities_from_metadata : Metadata → List Str
unfolding collect_key
capabilities_from_metadata metadata = collect_key metadata (lit "skills") (
    collect_key metadata (lit "skill")
      (collect_key metadata (lit "capabilities") (collect_key metadata (lit "capability") [])))
