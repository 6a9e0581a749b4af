-- ===== src/Gateway/Webhook.antt =====
-- crates/missive-gateway/src/webhook.rs: push callbacks are checked, recorded and counted.
--
-- Tokens and header values are their bytes. What the libraries do with headers and JSON is a
-- parameter. Of the metadata of an event, the protocol version and the result of the check are kept.
pub mod Auth
pub mod Receiver
pub mod Ledger
pub mod Authorised
pub mod Admitted
pub mod Recorded
mod Examples
use missive.Common.{
  ℕ, ◌+◌, ◌%◌, ◌^◌, Bool, true, false, not, ◌&&◌, ◌||◌, Option, none, some, List, [], ◌∷◌, ◌++◌,
  String, length, any, filter_by, leb, ◌==◌, is_empty, if◌then◌else◌, unwrap_or,
}
use missive.Common.Str.{
  Str, lit, str_eq, is_ascii_alphanumeric, to_ascii_lowercase, starts_with, trim, is_whitespace,
  is_control,
}
use missive.Common.Bits.{bit_or, bit_xor}
use missive.Core.Error.{
  Result, ok, err, panic, hang, MissiveError, ErrorCategory, new_error, ◌>>=◌, ◌>>◌, fail_if,
  check_some, validation_error,
}
use missive.Core.Json.{Value, Items, Fields}
use missive.Core.Ids.{new_context_id}

abbrev pub Bytes : Type 0
Bytes = List ℕ

pub data WebhookAuth : Type 0 where
  disabled : WebhookAuth
  header : Str → Bytes → Option Bytes → WebhookAuth

-- The loop over `0..max_len`: a byte that is not there counts as 0.
unfoldable pub diff_bytes : ℕ → Bytes → Bytes → ℕ
diff_bytes diff [] [] = diff
diff_bytes diff (a ∷ left) [] = diff_bytes (bit_or diff (bit_xor a 0)) left []
diff_bytes diff [] (b ∷ right) = diff_bytes (bit_or diff (bit_xor 0 b)) [] right
diff_bytes diff (a ∷ left) (b ∷ right) = diff_bytes (bit_or diff (bit_xor a b)) left right

unfoldable pub constant_time_eq : Bytes → Bytes → Bool
constant_time_eq left right = diff_bytes (bit_xor (length left) (length right)) left right == 0

unfoldable pub expected_auth_header_value : Option Bytes → Bytes → Bytes
expected_auth_header_value (some scheme) token = scheme ++ 32 ∷ token
expected_auth_header_value none token = token

-- `HeaderName::from_bytes`, `HeaderValue::to_str`, `serde_json::from_slice` and `from_value`.
pub data StreamResponse : Type 0 where
  task : Str → Str → Str → StreamResponse
  message : Option Str → Option Str → StreamResponse
  status_update : Str → Str → Str → StreamResponse
  artifact_update : Str → Str → Str → StreamResponse

pub record Decoders : Type 0 where
  pub is_header_name : Str → Bool
  pub is_visible : Bytes → Bool
  pub from_slice : Bytes → Option Value
  pub from_value : Value → Option StreamResponse

-- Where the store fails on an event: before it has added the context of the event, or after.
pub data StoreFailure : Type 0 where
  before_context after_context : MissiveError → StoreFailure

-- A request, and how the store fails on its event, if it does.
pub record Callback : Type 0 where
  pub headers : Str → Option Bytes
  pub body : Bytes
  pub failure : Option StoreFailure

pub data AuthCheck : Type 0 where
  passed : Bool → AuthCheck
  refused : String → AuthCheck

module _ (d : Decoders) where
  abbrev pub check_value : Bytes → Option Bytes → AuthCheck
  check_value expected none = AuthCheck.refused "missing required auth header {name}"
  check_value expected (some actual) =
      if not (d.is_visible actual)
      then AuthCheck.refused "auth header {name} contains non-UTF-8 data"
      else if constant_time_eq actual expected
      then AuthCheck.passed true
      else AuthCheck.refused "auth header {name} did not match the configured token"

  unfoldable pub validate_headers : WebhookAuth → (Str → Option Bytes) → AuthCheck
  validate_headers WebhookAuth.disabled headers = AuthCheck.passed false
  validate_headers (WebhookAuth.header name token scheme) headers =
      if not (d.is_header_name name)
      then AuthCheck.refused "configured auth header {name:?} is invalid"
      else check_value (expected_auth_header_value scheme token) (headers name)

-- The kind is also the type of the event. The label of a task's state is part of the response.
pub record PayloadDetails : Type 0 where
  pub kind : Str
  pub task_id : Option Str
  pub context_id : Option Str
  pub state : Option Str
  pub artifact_id : Option Str

unfoldable pub optional_id : Option Str → Result (Option Str)
optional_id none = ok none
optional_id (some value) = new_context_id value >>= λ id. ok (some id)

-- `TaskId::new` and `ContextId::new` are the same check.
unfoldable pub from_stream_response : StreamResponse → Result PayloadDetails
from_stream_response (StreamResponse.task id context label) = do
  task_id ← new_context_id id
  context_id ← new_context_id context
  ok (record {
    kind = lit "task";
    task_id = some task_id;
    context_id = some context_id;
    state = some label;
    artifact_id = none;
  })
from_stream_response (StreamResponse.message id context) = do
  task_id ← optional_id id
  context_id ← optional_id context
  ok (record {
    kind = lit "message";
    task_id = task_id;
    context_id = context_id;
    state = none;
    artifact_id = none;
  })
from_stream_response (StreamResponse.status_update id context label) = do
  task_id ← new_context_id id
  context_id ← new_context_id context
  ok (record {
    kind = lit "status_update";
    task_id = some task_id;
    context_id = some context_id;
    state = some label;
    artifact_id = none;
  })
from_stream_response (StreamResponse.artifact_update id context artifact) = do
  task_id ← new_context_id id
  context_id ← new_context_id context
  ok (record {
    kind = lit "artifact_update";
    task_id = some task_id;
    context_id = some context_id;
    state = none;
    artifact_id = some artifact;
  })
