-- ===== src/Core/Config/Whole.antt =====
-- crates/missive-core/src/config.rs: the whole configuration, and the sections that refer to others.
use missive.Common.{String, Bool, true, not, Option, none, List, [], ◌∷◌, is_empty}
use missive.Common.Str.{Str, lit, str_eq}
use missive.Common.StrMap.{StrMap, map_get, contains_key}
use missive.Core.Error.{Result, ◌>>◌, fail_if, ok_or, check_all, check_some, config_error}
use missive.Core.Json.{Metadata}
use missive.Core.Config.{BusyInputConfig, validate_busy_input}
use missive.Core.Config.Text.{
  Parsers, validate_named_config_identifier, validate_optional_text, validate_http_url,
  validate_transport_binding,
}
use missive.Core.Config.Sections.{
  StorageConfig, OutputConfig, ProtocolConfig, GatewayConfig, RoutingConfig, QosConfig,
  AuthRefConfig, default_storage, default_output, default_protocol, default_gateway,
  default_routing, default_qos, validate_storage, validate_output, validate_protocol,
  validate_gateway, validate_routing, validate_qos, validate_auth_ref,
}

pub record ProfileConfig : Type 0 where
  pub description : Option Str
  pub default_agent : Option Str
  pub storage : Option StorageConfig
  pub output : Option OutputConfig
  pub protocol : Option ProtocolConfig
  pub gateway : Option GatewayConfig
  pub routing : Option RoutingConfig
  pub qos : Option QosConfig
  pub metadata : Metadata

abbrev pub default_profile_config : ProfileConfig
default_profile_config = record {
  description = none;
  default_agent = none;
  storage = none;
  output = none;
  protocol = none;
  gateway = none;
  routing = none;
  qos = none;
  metadata = [];
}

pub record AgentConfig : Type 0 where
  pub base_url : Str
  pub interface_urls : StrMap Str
  pub binding_preference : List Str
  pub auth_ref : Option Str
  pub tags : List Str
  pub notes : Option Str
  pub metadata : Metadata

abbrev pub default_agent_config : AgentConfig
default_agent_config = record {
  base_url = [];
  interface_urls = [];
  binding_preference = lit "http+json" ∷ lit "json-rpc" ∷ [];
  auth_ref = none;
  tags = [];
  notes = none;
  metadata = [];
}

pub record AdapterConfig : Type 0 where
  pub kind : Str
  pub enabled : Bool
  pub session_profile : Option Str
  pub busy_input : Option BusyInputConfig
  pub settings : Metadata

abbrev pub default_adapter_config : AdapterConfig
default_adapter_config = record {
  kind = [];
  enabled = true;
  session_profile = none;
  busy_input = none;
  settings = [];
}

pub record MissiveConfig : Type 0 where
  pub schema_version : Str
  pub default_profile : Str
  pub profiles : StrMap ProfileConfig
  pub agents : StrMap AgentConfig
  pub auth_refs : StrMap AuthRefConfig
  pub storage : StorageConfig
  pub output : OutputConfig
  pub protocol : ProtocolConfig
  pub gateway : GatewayConfig
  pub routing : RoutingConfig
  pub adapters : StrMap AdapterConfig
  pub qos : QosConfig

abbrev pub default_config : MissiveConfig
default_config = record {
  schema_version = lit "missive.config.v1";
  default_profile = lit "default";
  profiles = (lit "default", default_profile_config) ∷ [];
  agents = [];
  auth_refs = [];
  storage = default_storage;
  output = default_output;
  protocol = default_protocol;
  gateway = default_gateway;
  routing = default_routing;
  adapters = [];
  qos = default_qos;
}

-- A name that must stand in a map of the configuration.
unfoldable pub validate_reference {ℓ} : {V : Type ℓ} → StrMap V → String → Str → Result (Unit {0})
validate_reference m missing name = do
  validate_named_config_identifier name
  fail_if (not (contains_key name m)) (config_error missing)

unfoldable pub validate_profile : Parsers → MissiveConfig → ProfileConfig → Result (Unit {0})
validate_profile parsers config c = do
  check_some validate_optional_text c.description
  check_some
      (validate_reference config.agents
        "profile {name:?} references missing default_agent {default_agent:?}")
      c.default_agent
  check_some validate_storage c.storage
  check_some validate_output c.output
  check_some validate_protocol c.protocol
  check_some (validate_gateway parsers) c.gateway
  check_some validate_routing c.routing
  check_some validate_qos c.qos

unfoldable pub validate_interface_url : Parsers → Str × Str → Result (Unit {0})
validate_interface_url parsers (binding, url) =
    validate_transport_binding binding >> validate_http_url parsers url

unfoldable pub validate_agent : Parsers → MissiveConfig → AgentConfig → Result (Unit {0})
validate_agent parsers config c = do
  validate_http_url parsers c.base_url
  check_all (validate_interface_url parsers) c.interface_urls
  check_all validate_transport_binding c.binding_preference
  check_some
      (validate_reference config.auth_refs
        "agent {alias:?} references missing auth_ref {auth_ref:?}")
      c.auth_ref
  check_all validate_named_config_identifier c.tags
  check_some validate_optional_text c.notes

unfoldable pub validate_adapter : MissiveConfig → AdapterConfig → Result (Unit {0})
validate_adapter config c = do
  validate_named_config_identifier c.kind
  check_some
      (validate_reference config.profiles
        "adapter {name:?} references missing session_profile {profile:?}")
      c.session_profile
  check_some validate_busy_input c.busy_input

-- The steps of the loops over the maps.
abbrev pub validate_entry {ℓ} : {V : Type ℓ} → (V → Result (Unit {0})) → Str × V → Result (Unit {0})
validate_entry check (name, value) = validate_named_config_identifier name >> check value

-- `MissiveConfig::validate`.
unfoldable pub validate_config : Parsers → MissiveConfig → Result (Unit {0})
validate_config parsers c = do
  fail_if (not (str_eq c.schema_version (lit "missive.config.v1")))
      (config_error "unsupported config schema_version {:?}; expected {CONFIG_SCHEMA_VERSION:?}")
  validate_named_config_identifier c.default_profile
  fail_if (is_empty c.profiles) (config_error "configuration must define at least one profile")
  fail_if (not (contains_key c.default_profile c.profiles))
      (config_error "default_profile {:?} does not match any [profiles.<name>] entry")
  check_all (validate_entry (validate_profile parsers c)) c.profiles
  check_all (validate_entry (validate_agent parsers c)) c.agents
  check_all (validate_entry validate_auth_ref) c.auth_refs
  validate_storage c.storage
  validate_output c.output
  validate_protocol c.protocol
  validate_gateway parsers c.gateway
  validate_routing c.routing
  validate_qos c.qos
  check_all (validate_entry (validate_adapter c)) c.adapters

-- `MissiveConfig::profile`.
unfoldable pub profile : MissiveConfig → Str → Result ProfileConfig
profile c name =
    validate_named_config_identifier name
    >> ok_or (map_get name c.profiles) (config_error "profile {name:?} is not defined")
