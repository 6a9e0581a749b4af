-- ===== src/Core/Config/BusyPolicy.antt =====
-- Which policy for busy input a loaded configuration gives to a source: `busy_input_config_for_source`
-- of crates/missive-core/src/config.rs.
use missive.Common.{not, Option, none, some, ◌≡◌, refl, Option-cases, inl, inr, unwrap_or}
use missive.Common.Str.{Str}
use missive.Common.StrMap.{map_get}
use missive.Core.Error.{Result, ok, check_some, check_all, fail_if}
use missive.Core.Config.{BusyInputConfig, validate_busy_input, validate_positive_u16}
use missive.Core.Config.Text.{Parsers, validate_named_config_identifier, validate_http_url}
use missive.Core.Config.Sections.{GatewayConfig, validate_gateway}
use missive.Core.Config.Whole.{MissiveConfig, validate_adapter, validate_entry, validate_reference}
use missive.Core.Config.Loaded.{
  LoadedConfig, selected_profile_config, gateway_config, busy_input_config_for_source,
  adapter_busy_input, profile_busy_input, policy_or,
}
use missive.Core.Config.Discovery.{Host}
use missive.Core.Config.Effective.{IsLoaded, selected-parts}
use missive.Core.Config.References.{>>-eq-ok, check_all-map_get, validate_config-parts}

validate_gateway-busy :
    (parsers : Parsers) (g : GatewayConfig)
    → validate_gateway parsers g ≡ ok tt
    → validate_busy_input g.busy_input ≡ ok tt
unfolding validate_gateway
validate_gateway-busy parsers g h =
    let (bound, h1) = >>-eq-ok (fail_if (not (parsers.is_socket_addr g.bind_address)) _) _ h in
    let (url, h2) = >>-eq-ok (check_some (validate_http_url parsers) g.public_base_url) _ h1 in
    let (positive, busy) = >>-eq-ok (validate_positive_u16 g.job_concurrency) _ h2 in busy

pub adapter_busy_input-passes :
    (c : MissiveConfig) (name : Str)
    → check_all (validate_entry (validate_adapter c)) c.adapters ≡ ok tt
    → check_some validate_busy_input (adapter_busy_input (map_get name c.adapters)) ≡ ok tt
unfolding validate_adapter adapter_busy_input
adapter_busy_input-passes c name h = elim (Option-cases (map_get name c.adapters)) [
  | inl missing ↦ rw missing refl
  | inr (a, there) ↦
      let (named, checked) = check_all-map_get (validate_adapter c) c.adapters name a h there in
      let (kind, h1) = >>-eq-ok (validate_named_config_identifier a.kind) _ checked in
      let (found, busy) =
        >>-eq-ok (check_some (validate_reference c.profiles _) a.session_profile) _ h1 in
      rw there busy
]

policy_or-passes :
    (given : Option BusyInputConfig) (base : Result BusyInputConfig) (policy : BusyInputConfig)
    → check_some validate_busy_input given ≡ ok tt
    → base ≡ ok policy
    → validate_busy_input policy ≡ ok tt
    → (used : BusyInputConfig) × (policy_or given base ≡ ok used)
      × (validate_busy_input used ≡ ok tt)
policy_or-passes none base policy g e valid = (policy, e, valid)
policy_or-passes (some own) base policy g e valid = (own, refl, g)

-- For a source with an acceptable name, or none, there is a policy for busy input, and it passes
-- `BusyInputConfig::validate`.
pub busy_input_config_for_source-valid :
    (host : Host) (l : LoadedConfig) (source : Option Str)
    → IsLoaded host l
    → check_some validate_named_config_identifier source ≡ ok tt
    → (policy : BusyInputConfig) × (busy_input_config_for_source l source ≡ ok policy)
      × (validate_busy_input policy ≡ ok tt)
unfolding busy_input_config_for_source profile_busy_input gateway_config selected_profile_config
busy_input_config_for_source-valid host l none loaded named =
    let (protocol, gateway, routing) = selected-parts host l loaded in
    (
      (unwrap_or loaded.selected.gateway l.config.gateway).busy_input,
      rw loaded.found refl,
      validate_gateway-busy host.parsers _ gateway,
    )
busy_input_config_for_source-valid host l (some name) loaded named =
    let (protocol, gateway, routing) = selected-parts host l loaded in
    let (k, n, ps, ag, au, o, p, g, r, adapters) =
      validate_config-parts host.parsers l.config loaded.valid in
    let base : profile_busy_input l
        ≡ ok (unwrap_or loaded.selected.gateway l.config.gateway).busy_input =
      rw loaded.found refl in
    let (used, e, valid) =
      policy_or-passes (adapter_busy_input (map_get name l.config.adapters)) (profile_busy_input l)
        _ (adapter_busy_input-passes l.config name adapters) base
        (validate_gateway-busy host.parsers _ gateway) in
    (used, rw named e, valid)
