-- ===== src/Core/Ids.antt =====
-- crates/missive-core/src/ids.rs: which strings name agents, groups, contexts and tasks.
--
-- The source looks at bytes. A byte of a character beyond ASCII passes none of its tests, so that the
-- tests are on characters here, and on the length in bytes.
use missive.Common.{ℕ, Bool, false, not, ◌&&◌, ◌||◌, [], ◌∷◌, is_empty, any, all, leb, ltb, ◌==◌}
use missive.Common.Str.{Str, str_len, is_whitespace, is_control}
use missive.Core.Error.{Result, ok, ◌>>◌, fail_if, validation_error}

abbrev pub is_ascii_lower_alphanumeric : ℕ → Bool
is_ascii_lower_alphanumeric c = (leb b'a' c && leb c b'z') || (leb b'0' c && leb c b'9')

abbrev pub is_named_separator : ℕ → Bool
is_named_separator c = (c == b'-') || (c == b'_') || (c == b'.')

abbrev pub is_transport_separator : ℕ → Bool
is_transport_separator c = (c == b'+') || (c == b'-') || (c == b'_') || (c == b'.')

-- `bytes[0]` and `bytes[bytes.len() - 1]` of a text that is not empty.
abbrev pub starts_by : (ℕ → Bool) → Str → Bool
starts_by p [] = false
starts_by p (c ∷ s) = p c

abbrev pub ends_by : (ℕ → Bool) → Str → Bool
ends_by p [] = false
ends_by p (c ∷ []) = p c
ends_by p (c ∷ d ∷ s) = ends_by p (d ∷ s)

unfoldable pub validate_identifier_shape : Str → ℕ → (ℕ → Bool) → Result (Unit {0})
validate_identifier_shape value max_bytes is_separator = do
  fail_if (is_empty value) (validation_error "value cannot be empty")
  fail_if (ltb max_bytes (str_len value))
      (validation_error "value is {} bytes, but the maximum is {max_bytes}")
  fail_if (not (starts_by is_ascii_lower_alphanumeric value))
      (validation_error "value must start with a lowercase ASCII letter or digit")
  fail_if (not (ends_by is_ascii_lower_alphanumeric value))
      (validation_error "value must end with a lowercase ASCII letter or digit")
  fail_if (not (all (λ c. is_ascii_lower_alphanumeric c || is_separator c) value))
      (validation_error "value must contain only {allowed_description}")

abbrev pub validate_named_identifier : Str → Result (Unit {0})
validate_named_identifier value = validate_identifier_shape value 63 is_named_separator

abbrev pub validate_transport_name : Str → Result (Unit {0})
validate_transport_name value = validate_identifier_shape value 64 is_transport_separator

unfoldable pub validate_opaque_identifier : Str → Result (Unit {0})
validate_opaque_identifier value = do
  fail_if (is_empty value) (validation_error "value cannot be empty")
  fail_if (ltb 256 (str_len value))
      (validation_error "value is {} bytes, but the maximum is {OPAQUE_IDENTIFIER_MAX_BYTES}")
  fail_if (any is_whitespace value) (validation_error "value cannot contain whitespace")
  fail_if (any is_control value) (validation_error "value cannot contain control characters")

-- `ContextId::new` and `GroupName::new`, which keep the text.
abbrev pub new_context_id : Str → Result Str
new_context_id value = validate_opaque_identifier value >> ok value

abbrev pub new_group_name : Str → Result Str
new_group_name value = validate_named_identifier value >> ok value
