-- ===== src/Gateway/Webhook/Recorded.antt =====
-- What crates/missive-gateway/src/webhook.rs has on record after any callbacks.
use missive.Common.{
  Bool, true, not, ◌||◌, Option, none, some, List, [], ◌∷◌, ◌≡◌, refl, arith, Bool-cases, inl, inr,
  ◌+◌, ◌≤◌, count_by, if◌then◌else◌, ◌∙◌,
}
use missive.Core.Error.{Result, ok, err, panic, hang}
use missive.Core.Json.{Value}
use missive.Gateway.Webhook.Ledger.{
  IsRecorded, requires, is_accepted, rejected_with-IsRecorded, accepted_with-IsRecorded,
}
use missive.Gateway.Webhook.{
  WebhookAuth, AuthCheck, Decoders, Callback, Bytes, PayloadDetails, validate_headers, check_value,
  expected_auth_header_value, from_stream_response, StreamResponse,
}
use missive.Gateway.Webhook.Receiver.{
  WebhookAppState, reject_callback, accept_details, accept_response, accept_json,
  handle_authorized_callback, after_check, push_callback,
}
use missive.Gateway.Webhook.Authorised.{carries_token}
use missive.Gateway.Webhook.Admitted.{accepted_events, admitted, push_callback-Admits}

-- One callback after the other.
unfoldable pub run_callbacks : Decoders → List Callback → WebhookAppState → WebhookAppState
run_callbacks d [] s = s
run_callbacks d (callback ∷ rest) s = run_callbacks d rest (push_callback d callback s).1

module _ (d : Decoders) (callback : Callback) (s : WebhookAppState) where
  check_value-passed :
      (expected : Bytes) (given : Option Bytes) (validated : Bool)
      → check_value d expected given ≡ AuthCheck.passed validated
      → validated ≡ true
  check_value-passed expected none validated h = absurd cc
  check_value-passed expected (some actual) validated h = ground arith

  validate_headers-passed :
      (auth : WebhookAuth) (validated : Bool)
      → validate_headers d auth callback.headers ≡ AuthCheck.passed validated
      → (not (requires auth) || validated) ≡ true
  unfolding validate_headers
  validate_headers-passed WebhookAuth.disabled validated h = refl
  validate_headers-passed (WebhookAuth.header name token scheme) validated h =
      elim (Bool-cases (d.is_header_name name)) [
        | inl valid ↦
            check_value-passed (expected_auth_header_value scheme token) (callback.headers name)
              validated (ground arith)
        | inr invalid ↦ absurd (ground arith)
      ]

  handle-IsRecorded :
      (validated : Bool)
      → (not (requires s.auth) || validated) ≡ true
      → IsRecorded s
      → IsRecorded (handle_authorized_callback d callback s validated).1
  unfolding handle_authorized_callback reject_callback
  handle-IsRecorded validated h r = from_json (d.from_slice callback.body)
    where
      from_details :
          (raw : Value) (details : Result PayloadDetails)
          → IsRecorded (accept_details d callback s validated raw details).1
      from_details raw (ok details) =
          accepted_with-IsRecorded s callback.failure details _ _ validated h r
      from_details raw (err e) =
          rejected_with-IsRecorded s 400 "invalid_a2a_identifiers" callback.failure _ refl r
      from_details raw panic =
          rejected_with-IsRecorded s 400 "invalid_a2a_identifiers" callback.failure _ refl r
      from_details raw hang =
          rejected_with-IsRecorded s 400 "invalid_a2a_identifiers" callback.failure _ refl r

      from_response :
          (raw : Value) (response : Option StreamResponse)
          → IsRecorded (accept_response d callback s validated raw response).1
      from_response raw none =
          rejected_with-IsRecorded s 400 "invalid_a2a_stream_response" callback.failure _ refl r
      from_response raw (some response) = from_details raw (from_stream_response response)

      from_json : (raw : Option Value) → IsRecorded (accept_json d callback s validated raw).1
      from_json none = rejected_with-IsRecorded s 400 "invalid_json" callback.failure _ refl r
      from_json (some raw) = from_response raw (d.from_value raw)

  after_check-IsRecorded :
      (check : AuthCheck)
      → validate_headers d s.auth callback.headers ≡ check
      → IsRecorded s
      → IsRecorded (after_check d callback s check).1
  unfolding reject_callback
  after_check-IsRecorded (AuthCheck.refused message) e r =
      rejected_with-IsRecorded s 401 "auth_failed" callback.failure _ refl r
  after_check-IsRecorded (AuthCheck.passed validated) e r =
      handle-IsRecorded validated (validate_headers-passed s.auth validated e) r

  push_callback-IsRecorded : IsRecorded s → IsRecorded (push_callback d callback s).1
  unfolding push_callback
  push_callback-IsRecorded r =
      after_check-IsRecorded (validate_headers d s.auth callback.headers) refl r

run_callbacks-Admits :
    (d : Decoders) (callbacks : List Callback) (s : WebhookAppState) (auth : WebhookAuth)
    → s.auth ≡ auth
    → accepted_events (run_callbacks d callbacks s)
      ≤ accepted_events s + count_by (λ (c : Callback). carries_token auth c.headers) callbacks
unfolding run_callbacks
run_callbacks-Admits d [] s auth e = omega arith
run_callbacks-Admits d (callback ∷ rest) s auth e =
    let (kept, new) = push_callback-Admits d callback s in
    let later = run_callbacks-Admits d rest (push_callback d callback s).1 auth (kept ∙ e) in
    let one : admitted d callback s ≡ (if carries_token auth callback.headers then 1 else 0) =
      rw e refl in
    ground (arith, later, new, one)

run_callbacks-kept :
    (d : Decoders) (callbacks : List Callback) (s : WebhookAppState)
    → IsRecorded s
    → IsRecorded (run_callbacks d callbacks s)
unfolding run_callbacks
run_callbacks-kept d [] s r = r
run_callbacks-kept d (callback ∷ rest) s r =
    run_callbacks-kept d rest (push_callback d callback s).1
      (push_callback-IsRecorded d callback s r)

-- After any callbacks, whatever they hold and whichever of their events the store fails to keep: the
-- counters are the numbers of accepted and of rejected events on record, modulo 2^64; every accepted
-- event is marked as checked, if the receiver has a token; and a shutdown has been requested if the
-- count of accepted callbacks is at the limit. It is assumed that this held before. And at most as
-- many accepted events are new as there are callbacks that carry the token, or callbacks at all if
-- the receiver has none.
pub run_callbacks-IsRecorded :
    (d : Decoders) (callbacks : List Callback) (s : WebhookAppState)
    → IsRecorded s
    → IsRecorded (run_callbacks d callbacks s)
      × (count_by is_accepted (run_callbacks d callbacks s).store.events
          ≤ count_by is_accepted s.store.events
            + count_by (λ (c : Callback). carries_token s.auth c.headers) callbacks)
run_callbacks-IsRecorded d callbacks s r =
    (run_callbacks-kept d callbacks s r, run_callbacks-Admits d callbacks s s.auth refl)
