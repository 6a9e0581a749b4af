-- ===== src/Core/Config/Examples.antt =====
-- Runs of crates/missive-core/src/config.rs.
use missive.Common.StrMap.{map_get}
use missive.Common.Decimal.{digits_value, parse_u64, digits_onto, show_decimal, read_onto}
use missive.Common.{◌<◌, true, false, Option, none, some, [], ◌∷◌, ◌≡◌, refl, arith}
use missive.Common.Str.{
  Str, lit, str_len, starts_with, to_ascii_lowercase, to_ascii_lowercase_char, is_whitespace,
  str_eq, str_cmp, is_control, is_ascii_alphanumeric, trim_start, trim_end, trim, ends_with,
  trim_start_matches, trim_end_matches, trim_matches,
}
use missive.Core.Error.{ok, check_all}
use missive.Core.Routing.{RoutingPolicyKind, policy_from_name}
use missive.Core.Json.{Value, Fields}
use missive.Core.Config.{
  BusyInputConfig, BusyInputMode, default_busy_input, validate_positive_u16, validate_busy_input,
}
use missive.Core.Config.Text.{
  Url, Parsers, validate_named_config_identifier, validate_transport_binding,
  validate_optional_text, validate_required_text, validate_protocol_version, validate_a2a_extension,
  validate_service_parameter_value, eq_ignore_ascii_case, is_reserved_a2a_service_parameter,
  validate_http_url, validate_header_name, validate_auth_scheme, validate_env_var_name,
  validate_config_path, leading_digits, after_digits, validate_duration, env_flag_enabled,
}
use missive.Core.Config.Sections.{
  default_auth_ref, GatewayConfig, ProtocolConfig, RoutingConfig, OutputFormat,
  parse_config_routing_policy, validate_gateway, validate_protocol, validate_auth_source,
  validate_auth_ref, validate_storage, validate_output, validate_extensions,
  validate_service_parameter, validate_routing, validate_qos,
}
use missive.Core.Config.Whole.{
  AgentConfig, MissiveConfig, default_agent_config, default_adapter_config, default_profile_config,
  default_config, validate_config, validate_reference, validate_profile, validate_interface_url,
  validate_agent, validate_adapter, profile,
}
use missive.Core.Config.Loaded.{
  LoadedConfig, ConfigSourceKind, path_source, gateway_config, protocol_config, routing_config,
  output_format,
}
use missive.Core.Config.Discovery.{
  Host, ConfigDiscovery, load, find_repository_config, first_file, parse_toml_config, from_path,
  resolve_path, repository_config_requested, search_repository, home_candidates, candidates_of,
  split_colons, xdg_config_candidates, find_xdg_config, discover_xdg, discover_repository,
  discover_environment, discover_explicit, discover_path,
}
use missive.Core.Config.References.{references_resolve, validate_config-references_resolve}
use missive.Core.Config.Effective.{load-effective}
use missive.Core.Config.Candidates.{
  find_repository_config-first_file, files_in, up_to_repository, ancestors,
}
use missive.Core.Config.Redaction.{
  redact_config_json, redact_after_auth_scheme, find_ascii_case_insensitive, redact_on,
  after_secret,
}
use missive.Core.Config.Secrets.{hides, redact_config_json-hides}

abbrev pub local_url : Url
local_url = record {
  scheme = lit "http";
  host_str = some (lit "127.0.0.1");
  username = [];
  password = none;
}

abbrev pub local_parsers : Parsers
local_parsers = record { parse_url = λ s. some local_url; is_socket_addr = λ s. true }

abbrev pub echo : AgentConfig
echo = record default_agent_config {
  base_url = lit "http://127.0.0.1:8080";
  auth_ref = some (lit "example-env");
  tags = lit "local" ∷ lit "mock" ∷ [];
}

abbrev pub interrupting : BusyInputConfig
interrupting = record default_busy_input { mode = BusyInputMode.interrupt; max_queue_depth = 4 }

abbrev pub minimal : MissiveConfig
minimal = record default_config {
  profiles =
      (lit "default", record default_profile_config { default_agent = some (lit "echo") }) ∷ [];
  agents = (lit "echo", echo) ∷ [];
  auth_refs =
      (lit "example-env", record default_auth_ref { env = some (lit "MISSIVE_TOKEN") }) ∷ [];
  adapters =
      (
        lit "local-file",
        record default_adapter_config {
          kind = lit "file";
          session_profile = some (lit "default");
          busy_input = some interrupting;
        },
      )
      ∷ [];
}

-- A path of one component, whose parent is the empty path.
abbrev pub one_parent : Str → Option Str
one_parent [] = none
one_parent (c ∷ s) = some []

-- Every path is a file.
abbrev pub local_host : Host
local_host = record {
  parsers = local_parsers;
  is_absolute = λ p. false;
  join = λ p q. q;
  parent = one_parent;
  is_file = λ p. true;
  exists = λ p. false;
  read_to_string = λ p. some [];
  parse_toml = λ s. some minimal;
}

abbrev pub in_repository : ConfigDiscovery
in_repository = record {
  explicit_path = none;
  selected_profile = none;
  allow_repository_config = true;
  env = [];
  current_dir = lit "work";
}

abbrev pub loaded : LoadedConfig
loaded = record {
  config = minimal;
  source = path_source ConfigSourceKind.repository_local (lit "missive.toml");
  selected_profile = lit "default";
}

minimal-valid : validate_config local_parsers minimal ≡ ok tt
unfolding validate_positive_u16 validate_busy_input validate_named_config_identifier
    validate_transport_binding validate_optional_text validate_required_text
    validate_protocol_version validate_a2a_extension validate_service_parameter_value
    eq_ignore_ascii_case is_reserved_a2a_service_parameter validate_http_url validate_header_name
    validate_auth_scheme validate_env_var_name validate_config_path leading_digits after_digits
    validate_duration env_flag_enabled validate_auth_source validate_auth_ref validate_storage
    validate_output validate_extensions validate_service_parameter validate_protocol
    validate_gateway parse_config_routing_policy validate_routing validate_qos validate_reference
    validate_profile validate_interface_url validate_agent validate_adapter validate_config profile
    check_all policy_from_name str_eq str_cmp str_len is_whitespace is_control is_ascii_alphanumeric
    to_ascii_lowercase_char to_ascii_lowercase trim_start trim_end trim starts_with ends_with
    trim_start_matches trim_end_matches trim_matches digits_value parse_u64 digits_onto show_decimal
    read_onto map_get
minimal-valid = refl

pub load_example : load local_host in_repository ≡ ok loaded
unfolding validate_positive_u16 validate_busy_input validate_named_config_identifier
    validate_transport_binding validate_optional_text validate_required_text
    validate_protocol_version validate_a2a_extension validate_service_parameter_value
    eq_ignore_ascii_case is_reserved_a2a_service_parameter validate_http_url validate_header_name
    validate_auth_scheme validate_env_var_name validate_config_path leading_digits after_digits
    validate_duration env_flag_enabled validate_auth_source validate_auth_ref validate_storage
    validate_output validate_extensions validate_service_parameter validate_protocol
    validate_gateway parse_config_routing_policy validate_routing validate_qos validate_reference
    validate_profile validate_interface_url validate_agent validate_adapter validate_config profile
    check_all policy_from_name str_eq str_cmp str_len is_whitespace is_control is_ascii_alphanumeric
    to_ascii_lowercase_char to_ascii_lowercase trim_start trim_end trim starts_with ends_with
    trim_start_matches trim_end_matches trim_matches digits_value parse_u64 digits_onto show_decimal
    read_onto map_get parse_toml_config from_path resolve_path repository_config_requested
    first_file search_repository find_repository_config home_candidates candidates_of split_colons
    xdg_config_candidates find_xdg_config discover_xdg discover_repository discover_environment
    discover_explicit discover_path load
load_example = refl

validate_config-references_resolve_example : references_resolve minimal ≡ true
validate_config-references_resolve_example =
    validate_config-references_resolve local_parsers minimal minimal-valid

load-effective_example :
    ((g : GatewayConfig) × (gateway_config loaded ≡ ok g)
      × (validate_gateway local_parsers g ≡ ok tt))
    × ((p : ProtocolConfig) × (protocol_config loaded ≡ ok p) × (validate_protocol p ≡ ok tt))
    × ((r : RoutingConfig) × (kind : RoutingPolicyKind) × (routing_config loaded ≡ ok r)
        × (parse_config_routing_policy r.default_policy ≡ ok kind))
    × ((f : OutputFormat) × (output_format loaded ≡ ok f))
load-effective_example = load-effective local_host in_repository loaded load_example

one_parent-shorter : (p q : Str) → one_parent p ≡ some q → str_len q < str_len p
unfolding str_len
one_parent-shorter [] q h = absurd cc
one_parent-shorter (c ∷ s) q h = ground arith

find_repository_config-first_file_example :
    find_repository_config local_host in_repository
    ≡ ok (
        first_file local_host
          (files_in local_host (up_to_repository local_host (ancestors local_host 5 (lit "work")))))
unfolding ancestors str_len
find_repository_config-first_file_example =
    find_repository_config-first_file local_host one_parent-shorter in_repository

abbrev pub with_headers : Value
with_headers = Value.object (
    Fields.field (lit "api_key") (Value.number (lit "7")) (
      Fields.field (lit "headers")
        (Value.object
          (Fields.field (lit "Authorization") (Value.text (lit "Basic abc")) Fields.end))
        Fields.end))

redact_config_json-hides_example : hides (redact_config_json with_headers) ≡ true
redact_config_json-hides_example = redact_config_json-hides with_headers

both_redacted :
    redact_after_auth_scheme (lit "Bearer abc, bearer def") (lit "Bearer")
    ≡ lit "Bearer [REDACTED], bearer [REDACTED]"
unfolding redact_after_auth_scheme redact_on find_ascii_case_insensitive starts_with
    to_ascii_lowercase to_ascii_lowercase_char is_whitespace after_secret
both_redacted = refl

-- A second space hides the secret from the redaction.
two_spaces_kept : redact_after_auth_scheme (lit "Bearer  abc") (lit "Bearer") ≡ lit "Bearer  abc"
unfolding find_ascii_case_insensitive after_secret redact_on redact_after_auth_scheme is_whitespace
    to_ascii_lowercase_char to_ascii_lowercase starts_with
two_spaces_kept = refl
