-- ===== src/Gateway/Webhook/Examples.antt =====
-- Runs of crates/missive-gateway/src/webhook.rs.
use missive.Core.Ids.{validate_identifier_shape, validate_opaque_identifier}
use missive.Common.{List, ◌+◌, ◌≤◌, count_by, true, none, some, [], ◌∷◌, ◌≡◌, refl, if◌then◌else◌}
use missive.Common.Str.{
  lit, str_eq, str_cmp, str_len, is_whitespace, is_control, is_ascii_lowercase,
  is_ascii_alphanumeric, to_ascii_lowercase_char, to_ascii_lowercase, trim_start, trim_end, trim,
  starts_with, ends_with, trim_start_matches, trim_end_matches, trim_matches,
}
use missive.Core.Json.{Value, Fields}
use missive.Gateway.Webhook.{
  Bytes, WebhookAuth, Decoders, Callback, StreamResponse, constant_time_eq, diff_bytes,
  expected_auth_header_value, validate_headers, optional_id, from_stream_response,
}
use missive.Gateway.Webhook.Receiver.{
  WebhookAppState, push_callback, contains_text, is_secret_key, normalize_event_links, append_event,
  maybe_shutdown_after_max_events, reject_callback, handle_authorized_callback, redact_json,
  redact_items, redact_fields,
}
use missive.Gateway.Webhook.Ledger.{IsRecorded, is_accepted}
use missive.Gateway.Webhook.Recorded.{run_callbacks, run_callbacks-IsRecorded}
use missive.Gateway.Webhook.Authorised.{carries_token, push_callback-carries_token}

abbrev payload : Value
payload = Value.object (Fields.field (lit "token") (Value.text (lit "abc")) Fields.end)

-- Every body holds the same message.
abbrev decoders : Decoders
decoders = record {
  is_header_name = λ s. true;
  is_visible = λ s. true;
  from_slice = λ body. some payload;
  from_value = λ v. some (StreamResponse.message (some (lit "task-1")) none);
}

abbrev with_token : Bytes → Callback
with_token value = record {
  headers = λ name. if str_eq name (lit "Authorization") then some value else none;
  body = [];
  failure = none;
}

abbrev receiver : WebhookAppState
receiver = record {
  auth = WebhookAuth.header (lit "Authorization") (lit "s3") (some (lit "Bearer"));
  max_events = some 1;
  accepted_count = 0;
  rejected_count = 0;
  protocol_version = lit "1.0";
  shutdown = none;
  store = record { contexts = []; tasks = []; events = [] };
}

receiver-IsRecorded : IsRecorded receiver
receiver-IsRecorded = record {
  accepted = refl;
  rejected = refl;
  authorised = refl;
  stopping = refl;
}

abbrev two_callbacks : List Callback
two_callbacks = with_token (lit "Bearer s3") ∷ with_token (lit "s3") ∷ []

run_callbacks-IsRecorded_example :
    IsRecorded (run_callbacks decoders two_callbacks receiver)
    × (count_by is_accepted (run_callbacks decoders two_callbacks receiver).store.events
        ≤ 0 + count_by (λ (c : Callback). carries_token receiver.auth c.headers) two_callbacks)
run_callbacks-IsRecorded_example =
    run_callbacks-IsRecorded decoders two_callbacks receiver receiver-IsRecorded

answered : (push_callback decoders (with_token (lit "Bearer s3")) receiver).0.status ≡ 202
unfolding diff_bytes constant_time_eq expected_auth_header_value validate_headers optional_id
    from_stream_response contains_text is_secret_key normalize_event_links append_event
    maybe_shutdown_after_max_events reject_callback handle_authorized_callback push_callback
    redact_json redact_items redact_fields validate_identifier_shape validate_opaque_identifier
    str_eq str_cmp str_len is_whitespace is_control is_ascii_lowercase is_ascii_alphanumeric
    to_ascii_lowercase_char to_ascii_lowercase trim_start trim_end trim starts_with ends_with
    trim_start_matches trim_end_matches trim_matches
answered = refl

push_callback-carries_token_example :
    carries_token receiver.auth (with_token (lit "Bearer s3")).headers ≡ true
push_callback-carries_token_example =
    push_callback-carries_token decoders (with_token (lit "Bearer s3")) receiver answered
