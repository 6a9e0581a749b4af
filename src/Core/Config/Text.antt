-- ===== src/Core/Config/Text.antt =====
-- crates/missive-core/src/config.rs, lines 1261 to 1564: which texts the configuration accepts.
--
-- The source looks at bytes where the tests are on characters here: no byte of a character beyond
-- ASCII passes them. The names of the fields, which only messages hold, are left out. A path is its
-- text.
use missive.Common.{
  Bool, not, ◌||◌, Option, some, [], ◌∷◌, is_empty, any, all, ltb, ◌==◌, if◌then◌else◌,
}
use missive.Common.Str.{
  Str, lit, str_eq, str_len, trim, is_whitespace, is_control, is_ascii_alphabetic,
  is_ascii_alphanumeric, to_ascii_lowercase,
}
use missive.Common.Decimal.{is_digit, parse_u64}
use missive.Common.StrMap.{is_some}
use missive.Core.Error.{Result, ◌>>=◌, ◌>>◌, fail_if, ok_or, config_error}
use missive.Core.Ids.{
  is_ascii_lower_alphanumeric, is_named_separator, is_transport_separator, starts_by, ends_by,
}

unfoldable pub validate_named_config_identifier : Str → Result (Unit {0})
validate_named_config_identifier value = do
  fail_if (is_empty value) (config_error "value cannot be empty")
  fail_if (ltb 63 (str_len value)) (config_error "value is {} bytes, but the maximum is {}")
  fail_if (not (starts_by is_ascii_lower_alphanumeric value))
      (config_error "value must start with a lowercase ASCII letter or digit")
  fail_if (not (ends_by is_ascii_lower_alphanumeric value))
      (config_error "value must end with a lowercase ASCII letter or digit")
  fail_if (not (all (λ c. is_ascii_lower_alphanumeric c || is_named_separator c) value))
      (config_error "value must contain only lowercase ASCII letters, digits, '-', '_' or '.'")

unfoldable pub validate_transport_binding : Str → Result (Unit {0})
validate_transport_binding value = do
  fail_if (is_empty value) (config_error "{field} binding cannot be empty")
  fail_if (ltb 64 (str_len value)) (config_error "{field} binding is too long")
  fail_if
      (not (starts_by is_ascii_lower_alphanumeric value)
        || not (ends_by is_ascii_lower_alphanumeric value))
      (config_error "{field} binding must start and end with a lowercase ASCII letter or digit")
  fail_if (not (all (λ c. is_ascii_lower_alphanumeric c || is_transport_separator c) value))
      (config_error "{field} binding contains unsupported characters")

unfoldable pub validate_optional_text : Str → Result (Unit {0})
validate_optional_text value =
    fail_if (any is_control value) (config_error "{field} cannot contain control characters")

unfoldable pub validate_required_text : Option Str → Result (Unit {0})
validate_required_text given = do
  value ← ok_or given (config_error "{field} is required")
  filled ← fail_if (is_empty (trim value)) (config_error "{field} cannot be empty")
  validate_optional_text value

unfoldable pub validate_protocol_version : Str → Result (Unit {0})
validate_protocol_version value = do
  validate_required_text (some value)
  fail_if (ltb 64 (str_len value)) (config_error "{field} must be at most 64 bytes")
  fail_if
      (any (λ c. not (is_ascii_alphanumeric c || (c == b'.') || (c == b'-') || (c == b'_'))) value)
      (config_error "{field} contains unsupported characters")

unfoldable pub validate_a2a_extension : Str → Result (Unit {0})
validate_a2a_extension value = do
  validate_required_text (some value)
  fail_if (ltb 512 (str_len value))
      (config_error "{field} extension identifier must be at most 512 bytes")
  fail_if (any is_whitespace value || any (λ c. c == b',') value)
      (config_error "{field} extension identifiers must not contain whitespace or commas")

unfoldable pub validate_service_parameter_value : Str → Result (Unit {0})
validate_service_parameter_value value = do
  validate_required_text (some value)
  fail_if (ltb 8192 (str_len value))
      (config_error "{field} service parameter value must be at most 8192 bytes")

-- `eq_ignore_ascii_case`.
unfoldable pub eq_ignore_ascii_case : Str → Str → Bool
eq_ignore_ascii_case s t = str_eq (to_ascii_lowercase s) (to_ascii_lowercase t)

unfoldable pub is_reserved_a2a_service_parameter : Str → Bool
is_reserved_a2a_service_parameter value =
    eq_ignore_ascii_case value (lit "A2A-Version")
    || eq_ignore_ascii_case value (lit "A2A-Extensions")

-- What the source reads of a `Url` of the crate url.
pub record Url : Type 0 where
  pub scheme : Str
  pub host_str : Option Str
  pub username : Str
  pub password : Option Str

-- `Url::parse`, and whether `parse::<SocketAddr>` gives a value.
pub record Parsers : Type 0 where
  pub parse_url : Str → Option Url
  pub is_socket_addr : Str → Bool

unfoldable pub validate_http_url : Parsers → Str → Result (Unit {0})
validate_http_url parsers value = do
  filled ← validate_required_text (some value)
  compact ←
      fail_if (any is_whitespace value || any is_control value)
        (config_error "{field} must be an HTTP(S) URL without whitespace or control characters")
  parsed ←
      ok_or (parsers.parse_url value) (config_error "{field} must be a valid absolute HTTP(S) URL")
  web ←
      fail_if
        (not (str_eq parsed.scheme (lit "http") || str_eq parsed.scheme (lit "https"))
          || not (is_some parsed.host_str))
        (config_error "{field} must use http or https and include a host")
  fail_if (not (is_empty parsed.username) || is_some parsed.password)
      (config_error "{field} must not include embedded credentials")

unfoldable pub validate_header_name : Str → Result (Unit {0})
validate_header_name value = do
  validate_required_text (some value)
  fail_if (any (λ c. not (is_ascii_alphanumeric c || (c == b'-'))) value)
      (config_error "{field} must be an HTTP header name")

unfoldable pub validate_auth_scheme : Str → Result (Unit {0})
validate_auth_scheme value = do
  validate_required_text (some value)
  fail_if (any (λ c. not (is_ascii_alphanumeric c || (c == b'-') || (c == b'_'))) value)
      (config_error "{field} must be an auth scheme token")

unfoldable pub validate_env_var_name : Str → Result (Unit {0})
validate_env_var_name value = do
  validate_required_text (some value)
  fail_if (not (starts_by (λ c. is_ascii_alphabetic c || (c == b'_')) value))
      (config_error "{field} must start with an ASCII letter or underscore")
  fail_if (any (λ c. not (is_ascii_alphanumeric c || (c == b'_'))) value)
      (config_error "{field} must contain only ASCII letters, digits, and underscore")

unfoldable pub validate_config_path : Str → Result (Unit {0})
validate_config_path path = do
  fail_if (is_empty path) (config_error "{field} cannot be empty")
  fail_if (any is_control path) (config_error "{field} cannot contain control characters")

-- `split_at` where the digits at the front end.
unfoldable pub leading_digits : Str → Str
leading_digits [] = []
leading_digits (c ∷ s) = let rest = leading_digits s in if is_digit c then c ∷ rest else []

unfoldable pub after_digits : Str → Str
after_digits [] = []
after_digits (c ∷ s) = let rest = after_digits s in if is_digit c then rest else c ∷ s

abbrev pub is_duration_unit : Str → Bool
is_duration_unit unit =
    str_eq unit (lit "ms")
    || str_eq unit (lit "s")
    || str_eq unit (lit "m")
    || str_eq unit (lit "h")

unfoldable pub validate_duration : Str → Result (Unit {0})
validate_duration value = do
  filled ← validate_required_text (some value)
  parted ←
      fail_if (is_empty (leading_digits value) || is_empty (after_digits value))
        (config_error "{field} must include a positive integer and unit")
  amount ←
      ok_or (parse_u64 (leading_digits value)) (config_error "{field} duration amount is invalid")
  fail_if ((amount == 0) || not (is_duration_unit (after_digits value)))
      (config_error "{field} must use a positive duration with unit ms, s, m, or h")

unfoldable pub env_flag_enabled : Str → Bool
env_flag_enabled value =
    let flag = to_ascii_lowercase (trim value) in
    str_eq flag (lit "1")
    || str_eq flag (lit "true")
    || str_eq flag (lit "yes")
    || str_eq flag (lit "on")
