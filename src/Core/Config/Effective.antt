-- ===== src/Core/Config/Effective.antt =====
-- What `load` of crates/missive-core/src/config.rs gives to the other parts: under the selected
-- profile every section is there, and has passed its check.
use missive.Common.{arith, Option, none, some, ◌≡◌, refl, subst, Option-cases, inl, inr, unwrap_or}
use missive.Common.Str.{Str}
use missive.Common.StrMap.{map_get}
use missive.Core.Error.{Result, ok, ok_or, check_some}
use missive.Core.Error.Laws.{ok-injective, >>=-eq-ok}
use missive.Core.Routing.{RoutingPolicyKind}
use missive.Core.Config.Text.{Parsers, validate_named_config_identifier, validate_optional_text}
use missive.Core.Config.Sections.{
  OutputFormat, ProtocolConfig, GatewayConfig, RoutingConfig, validate_protocol, validate_gateway,
  validate_routing, validate_storage, validate_output, parse_config_routing_policy,
}
use missive.Core.Config.Whole.{
  MissiveConfig, ProfileConfig, default_config, validate_config, validate_profile,
  validate_reference, profile,
}
use missive.Core.Config.Loaded.{
  LoadedConfig, selected_profile_config, output_format, protocol_config, gateway_config,
  routing_config, built_in_source, format_or,
}
use missive.Core.Config.Discovery.{
  Host, discover_path, ConfigDiscovery, load, from_path, parse_toml_config, read_source,
}
use missive.Core.Config.References.{>>-eq-ok, check_all-map_get, validate_config-parts}

-- A configuration that was read has been validated, and its profile is there.
pub record IsLoaded (host : Host) (l : LoadedConfig) : Type 0 where
  pub valid : validate_config host.parsers l.config ≡ ok tt
  pub selected : ProfileConfig
  pub found : profile l.config l.selected_profile ≡ ok selected

parse_toml_config-valid :
    (host : Host) (input : Str) (c : MissiveConfig)
    → parse_toml_config host input ≡ ok c
    → validate_config host.parsers c ≡ ok tt
unfolding parse_toml_config
parse_toml_config-valid host input c h =
    let (config, e, h1) = >>=-eq-ok (ok_or (host.parse_toml input) _) _ h in
    let (tt, valid, h2) = >>=-eq-ok (validate_config host.parsers config) _ h1 in
    subst (λ d. validate_config host.parsers d ≡ ok tt) (ok-injective h2) valid

read_source-valid :
    (host : Host) (path : Option Str) (c : MissiveConfig)
    → read_source host path ≡ ok c
    → validate_config host.parsers c ≡ ok tt
unfolding from_path
read_source-valid host none c h =
    let (tt, valid, h1) = >>=-eq-ok (validate_config host.parsers default_config) _ h in
    subst (λ d. validate_config host.parsers d ≡ ok tt) (ok-injective h1) valid
read_source-valid host (some path) c h =
    let (input, e, h1) =
      >>=-eq-ok (ok_or (host.read_to_string path) _) (parse_toml_config host) h in
    parse_toml_config-valid host input c h1

pub load-IsLoaded :
    (host : Host) (d : ConfigDiscovery) (l : LoadedConfig) → load host d ≡ ok l → IsLoaded host l
unfolding load
load-IsLoaded host d l h =
    let (found, e, h1) = >>=-eq-ok (discover_path host d) _ h in
    let path = (unwrap_or found built_in_source).path in
    let (config, read, h2) = >>=-eq-ok (read_source host path) _ h1 in
    let name = unwrap_or d.selected_profile config.default_profile in
    let (selected, there, h3) = >>=-eq-ok (profile config name) _ h2 in
    subst (IsLoaded host) (ok-injective h3)
      (record { valid = read_source-valid host _ config read; selected = selected; found = there })

profile-eq-ok :
    (c : MissiveConfig) (name : Str) (p : ProfileConfig)
    → profile c name ≡ ok p
    → map_get name c.profiles ≡ some p
unfolding profile
profile-eq-ok c name p h =
    let (tt, named, h1) = >>=-eq-ok (validate_named_config_identifier name) _ h in
    elim (Option-cases (map_get name c.profiles)) [
      | inl missing ↦ ground arith
      | inr (found, e) ↦ ground arith
    ]

-- What `validate` has checked of a section that a profile may override.
unwrap_or-passes {ℓ} :
    {V : Type ℓ} (check : V → Result (Unit {0})) (given : Option V) (base : V)
    → check_some check given ≡ ok tt
    → check base ≡ ok tt
    → check (unwrap_or given base) ≡ ok tt
unwrap_or-passes check none base g h = h
unwrap_or-passes check (some v) base g h = g

validate_profile-parts :
    (parsers : Parsers) (c : MissiveConfig) (p : ProfileConfig)
    → validate_profile parsers c p ≡ ok tt
    → (check_some validate_protocol p.protocol ≡ ok tt)
      × (check_some (validate_gateway parsers) p.gateway ≡ ok tt)
      × (check_some validate_routing p.routing ≡ ok tt)
unfolding validate_profile
validate_profile-parts parsers c p h =
    let (described, h1) = >>-eq-ok (check_some validate_optional_text p.description) _ h in
    let (agent, h2) = >>-eq-ok (check_some (validate_reference c.agents _) p.default_agent) _ h1 in
    let (storage, h3) = >>-eq-ok (check_some validate_storage p.storage) _ h2 in
    let (output, h4) = >>-eq-ok (check_some validate_output p.output) _ h3 in
    let (protocol, h5) = >>-eq-ok (check_some validate_protocol p.protocol) _ h4 in
    let (gateway, h6) = >>-eq-ok (check_some (validate_gateway parsers) p.gateway) _ h5 in
    let (routing, qos) = >>-eq-ok (check_some validate_routing p.routing) _ h6 in
    (protocol, gateway, routing)

pub selected-parts :
    (host : Host) (l : LoadedConfig) (loaded : IsLoaded host l)
    → (validate_protocol (unwrap_or loaded.selected.protocol l.config.protocol) ≡ ok tt)
      × (validate_gateway host.parsers (unwrap_or loaded.selected.gateway l.config.gateway) ≡ ok tt)
      × (validate_routing (unwrap_or loaded.selected.routing l.config.routing) ≡ ok tt)
selected-parts host l loaded =
    let (k, n, profiles, ag, au, o, protocol, gateway, routing, ad) =
      validate_config-parts host.parsers l.config loaded.valid in
    let there = profile-eq-ok l.config l.selected_profile loaded.selected loaded.found in
    let (named, checked) =
      check_all-map_get (validate_profile host.parsers l.config) l.config.profiles
        l.selected_profile loaded.selected profiles there in
    let (p, g, r) = validate_profile-parts host.parsers l.config loaded.selected checked in
    (
      unwrap_or-passes validate_protocol loaded.selected.protocol l.config.protocol p protocol,
      unwrap_or-passes (validate_gateway host.parsers) loaded.selected.gateway l.config.gateway g
          gateway,
      unwrap_or-passes validate_routing loaded.selected.routing l.config.routing r routing,
    )

validate_routing-kind :
    (c : RoutingConfig)
    → validate_routing c ≡ ok tt
    → (kind : RoutingPolicyKind) × (parse_config_routing_policy c.default_policy ≡ ok kind)
unfolding validate_routing
validate_routing-kind c h =
    let (kind, e, done) = >>=-eq-ok (parse_config_routing_policy c.default_policy) _ h in (kind, e)

-- What `load` gives answers every question that the other parts ask of it: under the selected profile
-- there are a gateway configuration and a protocol configuration that pass their checks, a routing
-- configuration whose default policy is the name of a policy, and an output format.
pub load-effective :
    (host : Host) (d : ConfigDiscovery) (l : LoadedConfig)
    → load host d ≡ ok l
    → ((g : GatewayConfig) × (gateway_config l ≡ ok g) × (validate_gateway host.parsers g ≡ ok tt))
      × ((p : ProtocolConfig) × (protocol_config l ≡ ok p) × (validate_protocol p ≡ ok tt))
      × ((r : RoutingConfig) × (kind : RoutingPolicyKind) × (routing_config l ≡ ok r)
          × (parse_config_routing_policy r.default_policy ≡ ok kind))
      × ((f : OutputFormat) × (output_format l ≡ ok f))
unfolding gateway_config protocol_config routing_config output_format selected_profile_config
load-effective host d l h =
    let loaded = load-IsLoaded host d l h in
    let (protocol, gateway, routing) = selected-parts host l loaded in
    let (kind, named) = validate_routing-kind _ routing in
    let selected = loaded.selected in
    let c = l.config in
    (
      (unwrap_or selected.gateway c.gateway, rw loaded.found refl, gateway),
      (unwrap_or selected.protocol c.protocol, rw loaded.found refl, protocol),
      (unwrap_or selected.routing c.routing, kind, rw loaded.found refl, named),
      (format_or selected.output c.output.format, rw loaded.found refl),
    )
