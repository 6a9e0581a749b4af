-- ===== src/Core/Config/Secrets.antt =====
-- What a configuration that is shown still tells: the redaction of
-- crates/missive-core/src/config.rs.
use missive.Common.{
  ℕ, Bool, true, false, ◌&&◌, ◌||◌, Option, none, some, [], ◌∷◌, ◌++◌, if◌then◌else◌, ◌≡◌, refl,
  arith, Bool-cases, inl, inr, subst, and-join,
}
use missive.Common.Str.{Str, str_eq, str_eq_refl, trim, is_whitespace}
use missive.Core.Json.{Value, Items, Fields}
use missive.Core.Config.Redaction.{
  cut_word, config_redacted, is_secret_key, is_headers_key, is_auth_scheme, before_whitespace,
  scheme_kept, redact_header_value, redact_config_header_value, redact_entry, redact_config_json,
  redact_config_items, redact_config_object, redact_headers,
}

space-is_whitespace : is_whitespace 32 ≡ true
unfolding is_whitespace
space-is_whitespace = refl

-- Of a word, no character is white space.
cut_word-some :
    (b : Bool) (c d : ℕ) (later : Option Str) (w : Str)
    → cut_word b c later ≡ some (d ∷ w)
    → (b ≡ false) × (c ≡ d) × (later ≡ some w)
cut_word-some true c d later w h = absurd cc
cut_word-some false c d none w h = absurd cc
cut_word-some false c d (some v) w h = ground arith

before_whitespace-append :
    (s w more : Str) → before_whitespace s ≡ some w → before_whitespace (w ++ 32 ∷ more) ≡ some w
unfolding before_whitespace
before_whitespace-append [] w more h = absurd cc
before_whitespace-append (c ∷ s) [] more h = rw space-is_whitespace refl
before_whitespace-append (c ∷ s) (d ∷ w) more h =
    let (no_space, same, later) = cut_word-some (is_whitespace c) c d (before_whitespace s) w h in
    let here : is_whitespace d ≡ false = subst (λ x. is_whitespace x ≡ false) same no_space in
    rw (here, before_whitespace-append s w more later) refl

-- The marker, or an auth scheme before the marker.
unfoldable pub is_masked : Option Str → Str → Bool
is_masked none s = str_eq s config_redacted
is_masked (some scheme) s =
    str_eq s config_redacted || (is_auth_scheme scheme && str_eq s (scheme ++ 32 ∷ config_redacted))

abbrev pub is_masked_text : Value → Bool
is_masked_text (Value.text s) = is_masked (before_whitespace s) s
is_masked_text _ = false

abbrev pub is_marker : Value → Bool
is_marker (Value.text s) = str_eq s config_redacted
is_marker _ = false

-- At every depth, what stands under a secret key is the marker; in a map of headers an auth scheme
-- may precede it.
unfoldable mutual
  pub hides : Value → Bool
  hides (Value.object fields) = hide_fields fields false
  hides (Value.array items) = hide_items items
  hides (Value.text s) = true
  hides Value.null = true
  hides (Value.boolean b) = true
  hides (Value.number s) = true

  pub hide_items : Items → Bool
  hide_items Items.nil = true
  hide_items (Items.item value items) = hides value && hide_items items

  pub headers_hide : Value → Bool
  headers_hide (Value.object fields) = hide_fields fields true
  headers_hide (Value.array items) = hide_items items
  headers_hide (Value.text s) = true
  headers_hide Value.null = true
  headers_hide (Value.boolean b) = true
  headers_hide (Value.number s) = true

  pub hide_fields : Fields → Bool → Bool
  hide_fields Fields.end headers_context = true
  hide_fields (Fields.field key value fields) true =
      (if is_secret_key key then is_masked_text value else hides value) && hide_fields fields true
  hide_fields (Fields.field key value fields) false =
      (if is_secret_key key
        then is_marker value
        else if is_headers_key key
        then headers_hide value
        else hides value)
      && hide_fields fields false

masked-scheme :
    (w s : Str)
    → before_whitespace s ≡ some w
    → is_auth_scheme w ≡ true
    → s ≡ w ++ 32 ∷ config_redacted
    → is_masked (before_whitespace s) s ≡ true
unfolding is_masked
masked-scheme w s e known same =
    let eq : str_eq s (w ++ 32 ∷ config_redacted) ≡ true =
      subst (λ t. str_eq s t ≡ true) same (str_eq_refl s) in
    rw (e, known, eq) (ground arith)

marker-is_masked : is_masked (before_whitespace config_redacted) config_redacted ≡ true
unfolding is_masked before_whitespace is_whitespace str_eq
marker-is_masked = refl

scheme_kept-is_masked :
    (s : Str) (o : Option Str)
    → before_whitespace s ≡ o
    → is_masked (before_whitespace (scheme_kept o)) (scheme_kept o) ≡ true
scheme_kept-is_masked s none h = marker-is_masked
scheme_kept-is_masked s (some w) h = elim (Bool-cases (is_auth_scheme w)) [
  | inl known ↦
      rw known
        (masked-scheme w (w ++ 32 ∷ config_redacted) (before_whitespace-append s w _ h) known refl)
  | inr other ↦ rw other marker-is_masked
]

redact_header_value-is_masked :
    (s : Str) → is_masked_text (Value.text (redact_header_value s)) ≡ true
unfolding redact_header_value
redact_header_value-is_masked s = scheme_kept-is_masked (trim s) (before_whitespace (trim s)) refl

header-hides :
    (secret : Bool) (value plain : Value)
    → hides plain ≡ true
    → (if secret
        then is_masked_text (redact_config_header_value secret value plain)
        else hides (redact_config_header_value secret value plain))
      ≡ true
unfolding redact_config_header_value hides
header-hides true (Value.text s) plain h = redact_header_value-is_masked s
header-hides false (Value.text s) plain h = refl
header-hides true (Value.object fields) plain h = marker-is_masked
header-hides true (Value.array items) plain h = marker-is_masked
header-hides true Value.null plain h = marker-is_masked
header-hides true (Value.boolean b) plain h = marker-is_masked
header-hides true (Value.number n) plain h = marker-is_masked
header-hides false (Value.object fields) plain h = h
header-hides false (Value.array items) plain h = h
header-hides false Value.null plain h = h
header-hides false (Value.boolean b) plain h = h
header-hides false (Value.number n) plain h = h

entry-hides :
    (secret headers : Bool) (as_headers plain : Value)
    → headers_hide as_headers ≡ true
    → hides plain ≡ true
    → (if secret
        then is_marker (redact_entry secret headers as_headers plain)
        else if headers
        then headers_hide (redact_entry secret headers as_headers plain)
        else hides (redact_entry secret headers as_headers plain))
      ≡ true
unfolding redact_entry
entry-hides true headers as_headers plain g h = str_eq_refl config_redacted
entry-hides false true as_headers plain g h = g
entry-hides false false as_headers plain g h = h

mutual
  unfolding redact_config_json hides

  redact_config_json-hides_lem : (value : Value) → hides (redact_config_json value) ≡ true
  redact_config_json-hides_lem (Value.object fields) = redact_config_object-hides fields false
  redact_config_json-hides_lem (Value.array items) = redact_config_items-hides items
  redact_config_json-hides_lem (Value.text s) = refl
  redact_config_json-hides_lem Value.null = refl
  redact_config_json-hides_lem (Value.boolean b) = refl
  redact_config_json-hides_lem (Value.number s) = refl

  redact_config_items-hides : (items : Items) → hide_items (redact_config_items items) ≡ true
  redact_config_items-hides Items.nil = refl
  redact_config_items-hides (Items.item value items) =
      rw (redact_config_json-hides_lem value, redact_config_items-hides items) refl

  redact_headers-hides : (value : Value) → headers_hide (redact_headers value) ≡ true
  redact_headers-hides (Value.object fields) = redact_config_object-hides fields true
  redact_headers-hides (Value.array items) = redact_config_items-hides items
  redact_headers-hides (Value.text s) = refl
  redact_headers-hides Value.null = refl
  redact_headers-hides (Value.boolean b) = refl
  redact_headers-hides (Value.number s) = refl

  redact_config_object-hides :
      (fields : Fields) (headers_context : Bool)
      → hide_fields (redact_config_object fields headers_context) headers_context ≡ true
  redact_config_object-hides Fields.end headers_context = refl
  redact_config_object-hides (Fields.field key value fields) true =
      and-join _ _
        (header-hides (is_secret_key key) value (redact_config_json value)
          (redact_config_json-hides_lem value))
        (redact_config_object-hides fields true)
  redact_config_object-hides (Fields.field key value fields) false =
      and-join _ _
        (entry-hides (is_secret_key key) (is_headers_key key) (redact_headers value)
          (redact_config_json value) (redact_headers-hides value)
          (redact_config_json-hides_lem value))
        (redact_config_object-hides fields false)

-- Whatever the value, what `redact_config_json` gives of it has under a secret key the marker and
-- nothing else, at every depth; in a map under `headers` or `http_headers`, the marker or the name
-- of an auth scheme and the marker.
pub redact_config_json-hides : (value : Value) → hides (redact_config_json value) ≡ true
redact_config_json-hides = redact_config_json-hides_lem
