-- ===== src/Core/Config/Sections.antt =====
-- crates/missive-core/src/config.rs, lines 361 to 857: the sections of the configuration that stand
-- for themselves, with their defaults and their checks.
--
-- Only the values of a parsed file are kept: serde's attributes are not.
use missive.Common.{ℕ, Bool, true, false, not, Option, none, List, [], ◌∷◌, any, ltb, ◌==◌}
use missive.Common.Str.{Str, lit, str_eq, trim}
use missive.Common.StrMap.{StrMap}
use missive.Core.Error.{
  Result, ok, ◌>>=◌, ◌>>◌, fail_if, ok_or, check_all, check_some, config_error,
}
use missive.Core.Routing.{RoutingPolicyKind, policy_from_name}
use missive.Core.Config.{
  BusyInputConfig, default_busy_input, validate_busy_input, validate_positive_u16,
}
use missive.Core.Config.Text.{
  Parsers, validate_header_name, validate_auth_scheme, validate_env_var_name,
  validate_required_text, validate_config_path, validate_protocol_version, validate_a2a_extension,
  validate_service_parameter_value, is_reserved_a2a_service_parameter, validate_http_url,
  validate_duration,
}

pub data AuthRefKind : Type 0 where
  env keyring : AuthRefKind

pub record AuthRefConfig : Type 0 where
  pub kind : AuthRefKind
  pub env : Option Str
  pub keyring_service : Option Str
  pub keyring_account : Option Str
  pub header : Str
  pub scheme : Str

abbrev pub default_auth_ref : AuthRefConfig
default_auth_ref = record {
  kind = AuthRefKind.env;
  env = none;
  keyring_service = none;
  keyring_account = none;
  header = lit "Authorization";
  scheme = lit "Bearer";
}

-- `AuthRefConfig::validate`: the arms of its match, and the whole.
unfoldable pub validate_auth_source : AuthRefKind → AuthRefConfig → Result (Unit {0})
validate_auth_source AuthRefKind.env c =
    ok_or c.env (config_error "auth_refs.{name}.env is required for kind = \"env\"")
    >>= validate_env_var_name
validate_auth_source AuthRefKind.keyring c =
    validate_required_text c.keyring_service >> validate_required_text c.keyring_account

unfoldable pub validate_auth_ref : AuthRefConfig → Result (Unit {0})
validate_auth_ref c = do
  validate_header_name c.header
  validate_auth_scheme c.scheme
  validate_auth_source c.kind c

pub data StorageBackend : Type 0 where
  sqlite : StorageBackend

pub record StorageConfig : Type 0 where
  pub backend : StorageBackend
  pub database_path : Option Str

abbrev pub default_storage : StorageConfig
default_storage = record { backend = StorageBackend.sqlite; database_path = none }

unfoldable pub validate_storage : StorageConfig → Result (Unit {0})
validate_storage c = check_some validate_config_path c.database_path

pub data OutputFormat : Type 0 where
  human json ndjson quiet : OutputFormat

pub data ColorMode : Type 0 where
  auto always never : ColorMode

pub record OutputConfig : Type 0 where
  pub format : OutputFormat
  pub color : ColorMode
  pub redact_secrets : Bool

abbrev pub default_output : OutputConfig
default_output = record {
  format = OutputFormat.human;
  color = ColorMode.auto;
  redact_secrets = true;
}

unfoldable pub validate_output : OutputConfig → Result (Unit {0})
validate_output c =
    fail_if (not c.redact_secrets) (config_error "output.redact_secrets cannot be disabled")

pub record ProtocolConfig : Type 0 where
  pub protocol_version : Str
  pub extensions : List Str
  pub service_parameters : StrMap Str

abbrev pub default_protocol : ProtocolConfig
default_protocol = record { protocol_version = lit "1.0"; extensions = []; service_parameters = [] }

-- `ProtocolConfig::validate`: the loop over the extensions with the set of those seen, the step of
-- the loop over the service parameters, and the whole.
unfoldable pub validate_extensions : List Str → List Str → Result (Unit {0})
validate_extensions seen [] = ok tt
validate_extensions seen (extension ∷ rest) = do
  validate_a2a_extension extension
  fail_if (any (str_eq extension) seen)
      (config_error "{prefix}.extensions contains duplicate extension {extension:?}")
  validate_extensions (extension ∷ seen) rest

unfoldable pub validate_service_parameter : Str × Str → Result (Unit {0})
validate_service_parameter (name, value) = do
  validate_header_name name
  fail_if (is_reserved_a2a_service_parameter name) (
      config_error
        "{prefix}.service_parameters must not redefine reserved A2A service parameter {name:?}")
  validate_service_parameter_value value

unfoldable pub validate_protocol : ProtocolConfig → Result (Unit {0})
validate_protocol c = do
  validate_protocol_version c.protocol_version
  validate_extensions [] c.extensions
  check_all validate_service_parameter c.service_parameters

pub record GatewayConfig : Type 0 where
  pub enabled : Bool
  pub bind_address : Str
  pub public_base_url : Option Str
  pub job_concurrency : ℕ
  pub busy_input : BusyInputConfig

abbrev pub default_gateway : GatewayConfig
default_gateway = record {
  enabled = false;
  bind_address = lit "127.0.0.1:7347";
  public_base_url = none;
  job_concurrency = 4;
  busy_input = default_busy_input;
}

unfoldable pub validate_gateway : Parsers → GatewayConfig → Result (Unit {0})
validate_gateway parsers c = do
  fail_if (not (parsers.is_socket_addr c.bind_address)) (
      config_error
        "gateway.bind_address must be an IP socket address such as {DEFAULT_GATEWAY_BIND:?}")
  check_some (validate_http_url parsers) c.public_base_url
  validate_positive_u16 c.job_concurrency
  validate_busy_input c.busy_input

-- crates/missive-core/src/routing.rs.
unfoldable pub parse_config_routing_policy : Str → Result RoutingPolicyKind
parse_config_routing_policy value =
    ok_or (policy_from_name (trim value))
      (config_error "{field} has unknown routing policy {trimmed:?}")

pub record RoutingConfig : Type 0 where
  pub default_policy : Str

abbrev pub default_routing : RoutingConfig
default_routing = record { default_policy = lit "direct" }

unfoldable pub validate_routing : RoutingConfig → Result (Unit {0})
validate_routing c = parse_config_routing_policy c.default_policy >>= λ kind. ok tt

pub record QosConfig : Type 0 where
  pub timeout : Str
  pub connect_timeout : Str
  pub retry_attempts : ℕ
  pub retry_backoff : Str
  pub max_request_bytes : ℕ
  pub concurrency : ℕ

abbrev pub default_qos : QosConfig
default_qos = record {
  timeout = lit "30s";
  connect_timeout = lit "10s";
  retry_attempts = 2;
  retry_backoff = lit "250ms";
  max_request_bytes = 1048576;
  concurrency = 4;
}

unfoldable pub validate_qos : QosConfig → Result (Unit {0})
validate_qos c = do
  validate_duration c.timeout
  validate_duration c.connect_timeout
  validate_duration c.retry_backoff
  fail_if (ltb 10 c.retry_attempts) (config_error "{prefix}.retry_attempts must be at most 10")
  fail_if (c.max_request_bytes == 0)
      (config_error "{prefix}.max_request_bytes must be greater than zero")
  validate_positive_u16 c.concurrency
