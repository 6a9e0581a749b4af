-- ===== src/A2a/Negotiate.antt =====
-- crates/missive-a2a/src/lib.rs, lines 768 to 1100: the choice of an interface of an agent.
use missive.Common.{
  or_else, ℕ, Bool, not, ◌||◌, Option, none, some, List, [], ◌∷◌, is_empty, any, filter_by, ◌==◌,
  if◌then◌else◌,
}
use missive.Common.Str.{Str, lit, str_eq, is_ascii_lowercase}
use missive.Common.Decimal.{is_digit}
use missive.Common.StrMap.{StrMap, is_some}
use missive.Core.Error.{Result, ok, err, ◌>>=◌, ◌>>◌, fail_if, ok_or, validation_error}
use missive.Core.Config.Text.{Parsers}
use missive.A2a.Card.{
  AgentCard, AgentInterface, canonical_protocol_binding, is_locally_supported_binding,
  locally_supported_bindings, transport_error,
}

pub data NegotiatedInterfaceSource : Type 0 where
  agent_card registry_override base_url_fallback : NegotiatedInterfaceSource

pub record NegotiatedInterface : Type 0 where
  pub binding : Str
  pub protocol_binding : Str
  pub url : Str
  pub tenant : Option Str
  pub protocol_version : Str
  pub source : NegotiatedInterfaceSource

pub record InterfaceNegotiationOptions : Type 0 where
  pub preferred_bindings : List Str
  pub binding_override : Option Str
  pub fallback_interface_urls : StrMap Str
  pub fallback_base_url : Option Str

abbrev pub default_options : InterfaceNegotiationOptions
default_options = record {
  preferred_bindings = locally_supported_bindings;
  binding_override = none;
  fallback_interface_urls = [];
  fallback_base_url = none;
}

abbrev pub is_binding_char : ℕ → Bool
is_binding_char c =
    is_ascii_lowercase c || is_digit c || (c == b'+') || (c == b'-') || (c == b'_') || (c == b'.')

unfoldable pub normalize_requested_binding : Str → Result Str
normalize_requested_binding value = do
  let binding = canonical_protocol_binding value
  filled ← fail_if (is_empty binding) (validation_error "{label} cannot be empty")
  valid ←
      fail_if (any (λ c. not (is_binding_char c)) binding)
        (validation_error "{label} {value:?} is not a valid protocol binding name")
  ok binding

-- The loop of `normalized_preferences`: what has been seen is what has been kept.
unfoldable pub normalize_on : List Str → List Str → Result (List Str)
normalize_on seen [] = ok []
normalize_on seen (value ∷ values) = normalize_requested_binding value >>= λ binding.
    (if any (str_eq binding) seen
      then normalize_on seen values
      else (normalize_on (binding ∷ seen) values >>= λ rest. ok (binding ∷ rest)))

unfoldable pub normalized_preferences : List Str → Result (List Str)
normalized_preferences values =
    normalize_on [] (if is_empty values then locally_supported_bindings else values)

unfoldable pub ensure_locally_supported : Str → Result (Unit {0})
ensure_locally_supported binding = fail_if (not (is_locally_supported_binding binding)) (
    transport_error
      "A2A binding {binding:?} is not supported locally; missive supports locally: {}")

unfoldable pub first_interface : List AgentInterface → Str → Option AgentInterface
first_interface [] binding = none
first_interface (interface ∷ rest) binding =
    let later = first_interface rest binding in
    if str_eq (canonical_protocol_binding interface.protocol_binding) binding
    then some interface
    else later

abbrev pub first_card_interface : AgentCard → Str → Option AgentInterface
first_card_interface card binding = first_interface card.supported_interfaces binding

unfoldable pub interface_from_agent_card : AgentInterface → NegotiatedInterface
interface_from_agent_card interface = record {
  binding = canonical_protocol_binding interface.protocol_binding;
  protocol_binding = interface.protocol_binding;
  url = interface.url;
  tenant = interface.tenant;
  protocol_version = interface.protocol_version;
  source = NegotiatedInterfaceSource.agent_card;
}

unfoldable pub validate_interface_url : Parsers → Str → Result (Unit {0})
validate_interface_url parsers value = do
  parsed ← ok_or (parsers.parse_url value) (validation_error "{label} must be an absolute URL")
  fail_if (not (is_some parsed.host_str)) (validation_error "{label} must include a host")

-- The interface that stands for a URL which no Agent Card gives.
abbrev pub fallback_interface : Str → Str → NegotiatedInterfaceSource → NegotiatedInterface
fallback_interface binding url source = record {
  binding = binding;
  protocol_binding = binding;
  url = url;
  tenant = none;
  protocol_version = lit "unknown";
  source = source;
}

unfoldable pub registered_url : StrMap Str → Str → Option Str
registered_url [] binding = none
registered_url ((candidate, url) ∷ rest) binding =
    let later = registered_url rest binding in
    if str_eq (canonical_protocol_binding candidate) binding then some url else later

abbrev pub base_url_for : Option Str → Str → Option Str
base_url_for base binding = if str_eq binding (lit "http+json") then base else none

module _ (parsers : Parsers) where
  abbrev pub checked_fallback :
      Str → NegotiatedInterfaceSource → Str → Result (Option NegotiatedInterface)
  checked_fallback binding source url =
      validate_interface_url parsers url >> ok (some (fallback_interface binding url source))

  abbrev pub base_url_interface : Str → Option Str → Result (Option NegotiatedInterface)
  base_url_interface binding none = ok none
  base_url_interface binding (some url) =
      checked_fallback binding NegotiatedInterfaceSource.base_url_fallback url

  abbrev pub registered_interface :
      InterfaceNegotiationOptions → Str → Option Str → Result (Option NegotiatedInterface)
  registered_interface options binding none =
      base_url_interface binding (base_url_for options.fallback_base_url binding)
  registered_interface options binding (some url) =
      checked_fallback binding NegotiatedInterfaceSource.registry_override url

  unfoldable pub fallback_interface_for_binding :
      InterfaceNegotiationOptions → Str → Result (Option NegotiatedInterface)
  fallback_interface_for_binding options binding =
      registered_interface options binding (registered_url options.fallback_interface_urls binding)

  abbrev pub or_next :
      Option NegotiatedInterface → Result NegotiatedInterface → Result NegotiatedInterface
  or_next none next = next
  or_next (some interface) next = ok interface

  unfoldable pub negotiate_missing_interfaces_fallback :
      InterfaceNegotiationOptions → List Str → Result NegotiatedInterface
  negotiate_missing_interfaces_fallback options [] = err (
      transport_error
        "A2A Agent Card does not declare supportedInterfaces and no registry/base-URL fallback interface is available{requested}; missive supports locally: {}")
  negotiate_missing_interfaces_fallback options (binding ∷ rest) =
      fallback_interface_for_binding options binding >>= λ found.
      or_next found (negotiate_missing_interfaces_fallback options rest)

  unfoldable pub negotiate_requested_binding :
      AgentCard
      → InterfaceNegotiationOptions
      → Str
      → Option AgentInterface
      → Result NegotiatedInterface
  negotiate_requested_binding card options binding (some interface) =
      ok (interface_from_agent_card interface)
  negotiate_requested_binding card options binding none =
      if is_empty card.supported_interfaces
      then negotiate_missing_interfaces_fallback options (binding ∷ [])
      else err (
          transport_error
            "A2A binding override {binding:?} is not advertised by the Agent Card; missive supports locally: {}; remote advertised: {}")

  -- The loop over the preferred bindings.
  unfoldable pub first_preferred : AgentCard → List Str → Option AgentInterface
  first_preferred card [] = none
  first_preferred card (binding ∷ rest) =
      or_else (first_card_interface card binding) (first_preferred card rest)

  unfoldable pub negotiate_preferred :
      AgentCard
      → InterfaceNegotiationOptions
      → List Str
      → Option AgentInterface
      → Result NegotiatedInterface
  negotiate_preferred card options supported (some interface) =
      ok (interface_from_agent_card interface)
  negotiate_preferred card options supported none =
      if is_empty card.supported_interfaces
      then negotiate_missing_interfaces_fallback options supported
      else err (
          transport_error
            "no mutually supported A2A interface could be negotiated; missive supports locally: {}; remote advertised: {}")

  unfoldable pub negotiate_with :
      AgentCard → InterfaceNegotiationOptions → List Str → Option Str → Result NegotiatedInterface
  negotiate_with card options preferences (some override_binding) = do
    binding ← normalize_requested_binding override_binding
    supported ← ensure_locally_supported binding
    negotiate_requested_binding card options binding (first_card_interface card binding)
  negotiate_with card options preferences none = do
    let supported = filter_by is_locally_supported_binding preferences
    some_supported ← fail_if (is_empty supported) (
        transport_error
          "A2A interface negotiation cannot proceed because binding preference [{}] contains no locally supported bindings; missive supports locally: {}")
    negotiate_preferred card options supported (first_preferred card supported)

  unfoldable pub negotiate_agent_interface :
      AgentCard → InterfaceNegotiationOptions → Result NegotiatedInterface
  negotiate_agent_interface card options =
      normalized_preferences options.preferred_bindings >>= λ preferences.
      negotiate_with card options preferences options.binding_override
