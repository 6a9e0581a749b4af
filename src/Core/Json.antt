-- ===== src/Core/Json.antt =====
-- serde_json's `Value`, as far as the modelled code reads it, and the `Metadata` of
-- crates/missive-core/src/metadata.rs: a map from keys to values, kept in the order of the keys.
use missive.Common.{Bool, List, Option, none, some, [], ◌∷◌, if◌then◌else◌}
use missive.Common.Str.{Str, str_eq}

-- A number is kept as its text.
mutual
  pub data Value : Type 0 where
    null : Value
    boolean : Bool → Value
    number : Str → Value
    text : Str → Value
    array : Items → Value
    object : Fields → Value

  pub data Items : Type 0 where
    nil : Items
    item : Value → Items → Items

  pub data Fields : Type 0 where
    end : Fields
    field : Str → Value → Fields → Fields

abbrev pub Metadata : Type 0
Metadata = List (Str × Value)

-- `Metadata::get`.
unfoldable pub metadata_get : Str → Metadata → Option Value
metadata_get key [] = none
metadata_get key ((k, v) ∷ rest) = if str_eq k key then some v else metadata_get key rest
