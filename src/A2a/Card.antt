-- ===== src/A2a/Card.antt =====
-- crates/missive-a2a/src/lib.rs, lines 70 to 90 and 700 to 885: which Agent Cards are accepted, and
-- the names of the protocol bindings.
--
-- `AgentCard`, `AgentInterface` and `AgentSkill` are types of a library: here they have the fields
-- that the code reads.
use missive.Common.{
  ℕ, Bool, not, ◌&&◌, ◌||◌, Option, none, some, List, [], ◌∷◌, is_empty, any, filter_by, ◌==◌,
  if◌then◌else◌, String,
}
use missive.Common.Str.{Str, lit, str_eq, trim, starts_with, is_control, to_ascii_lowercase}
use missive.Common.StrMap.{is_some}
use missive.Core.Error.{Result, MissiveError, ErrorCategory, new_error, ◌>>◌, fail_if, check_all}
use missive.Core.Config.Text.{Url, Parsers}

abbrev pub protocol_error : String → MissiveError
protocol_error = new_error ErrorCategory.protocol

abbrev pub transport_error : String → MissiveError
transport_error = new_error ErrorCategory.transport

pub record AgentInterface : Type 0 where
  pub url : Str
  pub protocol_binding : Str
  pub tenant : Option Str
  pub protocol_version : Str

pub record AgentSkill : Type 0 where
  pub id : Str
  pub name : Str

pub record AgentCard : Type 0 where
  pub name : Str
  pub description : Str
  pub version : Str
  pub skills : List AgentSkill
  pub supported_interfaces : List AgentInterface

abbrev pub locally_supported_bindings : List Str
locally_supported_bindings = lit "http+json" ∷ lit "json-rpc" ∷ []

unfoldable pub is_locally_supported_binding : Str → Bool
is_locally_supported_binding binding = any (str_eq binding) locally_supported_bindings

abbrev pub is_binding_filler : ℕ → Bool
is_binding_filler c = (c == b'+') || (c == b'-') || (c == b'_')

unfoldable pub canonical_protocol_binding : Str → Str
canonical_protocol_binding value =
    let folded = to_ascii_lowercase (trim value) in
    let compact = filter_by (λ c. not (is_binding_filler c)) folded in
    if str_eq compact (lit "httpjson")
    then lit "http+json"
    else if str_eq compact (lit "jsonrpc")
    then lit "json-rpc"
    else if str_eq compact (lit "grpc")
    then lit "grpc"
    else folded

-- `contains` of a text.
unfoldable pub contains_text : Str → Str → Bool
contains_text part [] = starts_with [] part
contains_text part (c ∷ s) = starts_with (c ∷ s) part || contains_text part s

abbrev pub is_ascii_whitespace : ℕ → Bool
is_ascii_whitespace c = (c == 9) || (c == 10) || (c == 12) || (c == 13) || (c == 32)

unfoldable pub looks_like_grpc_authority : Str → Bool
looks_like_grpc_authority given =
    let value = trim given in
    not (is_empty value)
    && not (contains_text (lit "://") value)
    && not (starts_with value (lit "/"))
    && not (any (λ c. is_ascii_whitespace c || is_control c) value)

unfoldable pub validate_non_empty : Str → Result (Unit {0})
validate_non_empty value =
    fail_if (is_empty (trim value)) (protocol_error "{label} cannot be empty")

-- The `match` on the parsed URL: with a host, by the exception for gRPC, or the error.
abbrev pub url_host : Option Url → Option Str
url_host none = none
url_host (some parsed) = parsed.host_str

abbrev pub url_error : Option Url → MissiveError
url_error none =
    protocol_error "A2A Agent Card supportedInterfaces[{index}].url is not an absolute URL"
url_error (some parsed) =
    protocol_error "A2A Agent Card supportedInterfaces[{index}].url must include a host"

unfoldable pub validate_agent_interface : Parsers → AgentInterface → Result (Unit {0})
validate_agent_interface parsers interface = do
  validate_non_empty interface.url
  validate_non_empty interface.protocol_binding
  validate_non_empty interface.protocol_version
  fail_if
      (not (
        is_some (url_host (parsers.parse_url interface.url))
        || (str_eq (canonical_protocol_binding interface.protocol_binding) (lit "grpc")
            && looks_like_grpc_authority interface.url)))
      (url_error (parsers.parse_url interface.url))

unfoldable pub validate_agent_skill : AgentSkill → Result (Unit {0})
validate_agent_skill skill = validate_non_empty skill.id >> validate_non_empty skill.name

unfoldable pub validate_agent_card : Parsers → AgentCard → Result (Unit {0})
validate_agent_card parsers card = do
  validate_non_empty card.name
  validate_non_empty card.description
  validate_non_empty card.version
  fail_if (is_empty card.skills) (protocol_error "A2A Agent Card does not declare any skills")
  check_all (validate_agent_interface parsers) card.supported_interfaces
  check_all validate_agent_skill card.skills
