-- ===== src/A2a/Examples.antt =====
-- Runs of crates/missive-a2a/src/lib.rs.
use missive.Common.{none, some, List, [], ◌∷◌, ◌++◌, ◌≡◌, refl, true, all}
use missive.Common.Str.{
  is_ascii_lowercase, lit, str_eq, str_cmp, str_len, is_whitespace, is_control,
  is_ascii_alphanumeric, is_ascii_lowercase, to_ascii_lowercase_char, to_ascii_lowercase,
  trim_start, trim_end, trim, starts_with, ends_with, trim_start_matches, trim_end_matches,
  trim_matches,
}
use missive.Core.Error.{Result, ok, check_all}
use missive.Core.Config.Examples.{local_parsers}
use missive.A2a.Card.{
  AgentCard, AgentInterface, validate_agent_card, is_locally_supported_binding,
  canonical_protocol_binding, contains_text, looks_like_grpc_authority, validate_non_empty,
  validate_agent_interface, validate_agent_skill,
}
use missive.A2a.Negotiate.{
  NegotiatedInterfaceSource, NegotiatedInterface, InterfaceNegotiationOptions, default_options,
  interface_from_agent_card, negotiate_agent_interface, normalize_requested_binding, normalize_on,
  normalized_preferences, ensure_locally_supported, first_interface, validate_interface_url,
  registered_url, fallback_interface_for_binding, negotiate_missing_interfaces_fallback,
  negotiate_requested_binding, first_preferred, negotiate_preferred, negotiate_with,
}
use missive.A2a.Usable.{IsUsable}
use missive.A2a.Chosen.{negotiate_agent_interface-IsUsable}
use missive.A2a.Sse.{SseRecord, read_sse_records}
use missive.A2a.Sse.Written.{SentRecord, written, is_sendable, total_bytes}
use missive.A2a.Sse.RoundTrip.{each_record, read_sse_records-written}

abbrev json_rpc : AgentInterface
json_rpc = record {
  url = lit "http://127.0.0.1:8080/rpc";
  protocol_binding = lit "JSONRPC";
  tenant = none;
  protocol_version = lit "1.0";
}

abbrev grpc : AgentInterface
grpc = record json_rpc { url = lit "127.0.0.1:9090"; protocol_binding = lit "gRPC" }

abbrev card : AgentCard
card = record {
  name = lit "echo";
  description = lit "Repeats";
  version = lit "1";
  skills = record { id = lit "echo"; name = lit "Echo" } ∷ [];
  supported_interfaces = grpc ∷ json_rpc ∷ [];
}

abbrev chosen : NegotiatedInterface
chosen = record {
  binding = lit "json-rpc";
  protocol_binding = lit "JSONRPC";
  url = lit "http://127.0.0.1:8080/rpc";
  tenant = none;
  protocol_version = lit "1.0";
  source = NegotiatedInterfaceSource.agent_card;
}

abbrev overridden : InterfaceNegotiationOptions
overridden = record default_options { binding_override = some (lit "JSON_RPC") }

card-valid : validate_agent_card local_parsers card ≡ ok tt
unfolding is_locally_supported_binding canonical_protocol_binding contains_text
    looks_like_grpc_authority validate_non_empty validate_agent_interface validate_agent_skill
    validate_agent_card check_all str_eq str_cmp str_len is_whitespace is_control
    is_ascii_alphanumeric is_ascii_lowercase to_ascii_lowercase_char to_ascii_lowercase trim_start
    trim_end trim starts_with ends_with trim_start_matches trim_end_matches trim_matches
card-valid = refl

negotiated : negotiate_agent_interface local_parsers card overridden ≡ ok chosen
unfolding is_locally_supported_binding canonical_protocol_binding contains_text
    looks_like_grpc_authority validate_non_empty validate_agent_interface validate_agent_skill
    validate_agent_card normalize_requested_binding normalize_on normalized_preferences
    ensure_locally_supported first_interface interface_from_agent_card validate_interface_url
    registered_url fallback_interface_for_binding negotiate_missing_interfaces_fallback
    negotiate_requested_binding first_preferred negotiate_preferred negotiate_with
    negotiate_agent_interface str_eq str_cmp str_len is_whitespace is_control is_ascii_alphanumeric
    to_ascii_lowercase_char to_ascii_lowercase trim_start trim_end trim starts_with ends_with
    trim_start_matches trim_end_matches trim_matches is_ascii_lowercase
negotiated = refl

negotiate_agent_interface-IsUsable_example : IsUsable local_parsers card overridden chosen
negotiate_agent_interface-IsUsable_example =
    negotiate_agent_interface-IsUsable local_parsers card overridden card-valid chosen negotiated

abbrev two_records : List SentRecord
two_records =
    record { event = some (lit "message"); lines = lit "{" ∷ lit " }" ∷ [] }
    ∷ record { event = none; lines = [] ∷ [] }
    ∷ []

abbrev collect : List SseRecord → SseRecord → Result (List SseRecord)
collect seen r = ok (seen ++ r ∷ [])

two_records-sendable : all is_sendable two_records ≡ true
unfolding total_bytes is_sendable str_len
two_records-sendable = refl

read_sse_records-written_example :
    read_sse_records collect [] (written two_records) ≡ each_record collect [] two_records
read_sse_records-written_example =
    read_sse_records-written collect two_records [] two_records-sendable
