-- ===== src/Core/Config/Loaded.antt =====
-- crates/missive-core/src/config.rs, lines 859 to 988: a configuration with the profile that was
-- selected, and what holds under that profile.
use missive.Common.{Option, none, some, unwrap_or}
use missive.Common.Str.{Str}
use missive.Common.StrMap.{map_get}
use missive.Core.Error.{Result, ok, ◌>>=◌, ◌>>◌}
use missive.Core.Config.{BusyInputConfig}
use missive.Core.Config.Text.{validate_named_config_identifier}
use missive.Core.Config.Sections.{
  OutputConfig, OutputFormat, ProtocolConfig, GatewayConfig, RoutingConfig,
}
use missive.Core.Config.Whole.{AdapterConfig, MissiveConfig, ProfileConfig, profile}

pub data ConfigSourceKind : Type 0 where
  explicit_path environment repository_local xdg built_in_default : ConfigSourceKind

pub record ConfigSource : Type 0 where
  pub kind : ConfigSourceKind
  pub path : Option Str

-- `ConfigSource::path` and `ConfigSource::built_in_default`.
abbrev pub path_source : ConfigSourceKind → Str → ConfigSource
path_source kind path = record { kind = kind; path = some path }

abbrev pub built_in_source : ConfigSource
built_in_source = record { kind = ConfigSourceKind.built_in_default; path = none }

pub record LoadedConfig : Type 0 where
  pub config : MissiveConfig
  pub source : ConfigSource
  pub selected_profile : Str

unfoldable pub selected_profile_config : LoadedConfig → Result ProfileConfig
selected_profile_config l = profile l.config l.selected_profile

abbrev pub format_or : Option OutputConfig → OutputFormat → OutputFormat
format_or none fallback = fallback
format_or (some output) fallback = output.format

unfoldable pub output_format : LoadedConfig → Result OutputFormat
output_format l = do
  selected ← selected_profile_config l
  ok (format_or selected.output l.config.output.format)

unfoldable pub protocol_config : LoadedConfig → Result ProtocolConfig
protocol_config l = do
  selected ← selected_profile_config l
  ok (unwrap_or selected.protocol l.config.protocol)

unfoldable pub gateway_config : LoadedConfig → Result GatewayConfig
gateway_config l = do
  selected ← selected_profile_config l
  ok (unwrap_or selected.gateway l.config.gateway)

unfoldable pub routing_config : LoadedConfig → Result RoutingConfig
routing_config l = do
  selected ← selected_profile_config l
  ok (unwrap_or selected.routing l.config.routing)

-- The adapter's own policy, when the adapter is configured and has one.
unfoldable pub adapter_busy_input : Option AdapterConfig → Option BusyInputConfig
adapter_busy_input none = none
adapter_busy_input (some adapter) = adapter.busy_input

unfoldable pub profile_busy_input : LoadedConfig → Result BusyInputConfig
profile_busy_input l = gateway_config l >>= λ gateway. ok gateway.busy_input

abbrev pub policy_or : Option BusyInputConfig → Result BusyInputConfig → Result BusyInputConfig
policy_or none base = base
policy_or (some policy) base = ok policy

unfoldable pub busy_input_config_for_source : LoadedConfig → Option Str → Result BusyInputConfig
busy_input_config_for_source l none = profile_busy_input l
busy_input_config_for_source l (some source_name) =
    validate_named_config_identifier source_name
    >> policy_or (adapter_busy_input (map_get source_name l.config.adapters)) (profile_busy_input l)
