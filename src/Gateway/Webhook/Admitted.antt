-- ===== src/Gateway/Webhook/Admitted.antt =====
-- How many events of crates/missive-gateway/src/webhook.rs a callback can add to the accepted ones.
use missive.Common.{
  ℕ, ◌+◌, ◌≤◌, Bool, false, Option, none, some, List, String, count_by, if◌then◌else◌, ◌≡◌, refl,
  arith, sym, subst,
}
use missive.Core.Error.{Result, ok, err, panic, hang}
use missive.Core.Json.{Value}
use missive.Gateway.Webhook.{
  AuthCheck, Decoders, Callback, StoreFailure, PayloadDetails, StreamResponse, validate_headers,
  from_stream_response,
}
use missive.Gateway.Webhook.Receiver.{
  WebhookEvent, WebhookAppState, append_event, normalize_event_links, rejected_with, accepted_with,
  reject_callback, accept_details, accept_response, accept_json, handle_authorized_callback,
  after_check, push_callback, maybe_shutdown_after_max_events, append_normalized, next_u64,
}
use missive.Gateway.Webhook.Ledger.{is_accepted, count_by-last, maybe_shutdown-with_shutdown}
use missive.Gateway.Webhook.Authorised.{carries_token, validate_headers-carries_token}

abbrev pub accepted_events : WebhookAppState → ℕ
accepted_events s = count_by is_accepted s.store.events

-- The configuration of the check stays, and at most so many accepted events are new.
abbrev pub Admits : ℕ → WebhookAppState → WebhookAppState → Type 0
Admits n s out = (out.auth ≡ s.auth) × (accepted_events out ≤ accepted_events s + n)

rejected_with-Admits :
    (n : ℕ) (s : WebhookAppState) (status : ℕ) (reason : String) (failure : Option StoreFailure)
    (event : WebhookEvent)
    → is_accepted event ≡ false
    → Admits n s (rejected_with s status reason (append_event failure s.store event)).1
unfolding append_event normalize_event_links
rejected_with-Admits n s status reason failure (WebhookEvent.accepted a b c v) h = absurd cc
rejected_with-Admits n s status reason (some (StoreFailure.before_context e))
      (WebhookEvent.rejected a b c v) h =
    (refl, omega arith)
rejected_with-Admits n s status reason (some (StoreFailure.after_context e))
      (WebhookEvent.rejected a b c v) h =
    (refl, omega arith)
rejected_with-Admits n s status reason none (WebhookEvent.rejected a b c v) h =
    let last = count_by-last is_accepted s.store.events (WebhookEvent.rejected a b c v) in
    (refl, omega (arith, last))

maybe_shutdown-Admits :
    (n : ℕ) (s t : WebhookAppState) → Admits n s t → Admits n s (maybe_shutdown_after_max_events t)
maybe_shutdown-Admits n s t h =
    let (reason, same, stopping) = maybe_shutdown-with_shutdown t in subst (Admits n s) (sym same) h

accepted_with-Admits :
    (s : WebhookAppState) (failure : Option StoreFailure) (details : PayloadDetails)
    (payload : Value) (version : List ℕ) (validated : Bool)
    → Admits 1 s
        (accepted_with s (
          append_event failure s.store (WebhookEvent.accepted details payload version validated))).1
unfolding append_event normalize_event_links
accepted_with-Admits s (some (StoreFailure.before_context e)) details payload version validated =
    (refl, omega arith)
accepted_with-Admits s (some (StoreFailure.after_context e)) details payload version validated =
    (refl, omega arith)
accepted_with-Admits s none details payload version validated =
    let (store, event) =
      normalize_event_links s.store (WebhookEvent.accepted details payload version validated) in
    let last = count_by-last is_accepted s.store.events event in
    maybe_shutdown-Admits 1 s
      (record s {
        accepted_count = next_u64 s.accepted_count;
        store = append_normalized (store, event);
      })
      (refl, omega (arith, last))

module _ (d : Decoders) (callback : Callback) (s : WebhookAppState) where
  reject_callback-Admits :
      (n status : ℕ) (reason : String) (payload : Option Value) (validated : Bool)
      → Admits n s (reject_callback d callback s status reason payload validated).1
  unfolding reject_callback
  reject_callback-Admits n status reason payload validated =
      rejected_with-Admits n s status reason callback.failure _ refl

  accept_details-Admits :
      (validated : Bool) (raw : Value) (details : Result PayloadDetails)
      → Admits 1 s (accept_details d callback s validated raw details).1
  accept_details-Admits validated raw (ok details) =
      accepted_with-Admits s callback.failure details _ _ validated
  accept_details-Admits validated raw (err e) = reject_callback-Admits 1 _ _ _ validated
  accept_details-Admits validated raw panic = reject_callback-Admits 1 _ _ _ validated
  accept_details-Admits validated raw hang = reject_callback-Admits 1 _ _ _ validated

  accept_response-Admits :
      (validated : Bool) (raw : Value) (response : Option StreamResponse)
      → Admits 1 s (accept_response d callback s validated raw response).1
  accept_response-Admits validated raw none = reject_callback-Admits 1 _ _ _ validated
  accept_response-Admits validated raw (some response) =
      accept_details-Admits validated raw (from_stream_response response)

  accept_json-Admits :
      (validated : Bool) (raw : Option Value)
      → Admits 1 s (accept_json d callback s validated raw).1
  accept_json-Admits validated none = reject_callback-Admits 1 _ _ _ validated
  accept_json-Admits validated (some raw) = accept_response-Admits validated raw (d.from_value raw)

  abbrev pub admitted : ℕ
  admitted = if carries_token s.auth callback.headers then 1 else 0

  after_check-Admits :
      (check : AuthCheck)
      → validate_headers d s.auth callback.headers ≡ check
      → Admits admitted s (after_check d callback s check).1
  unfolding handle_authorized_callback
  after_check-Admits (AuthCheck.refused message) e =
      reject_callback-Admits admitted 401 "auth_failed" none false
  after_check-Admits (AuthCheck.passed validated) e =
      rw (validate_headers-carries_token d callback s s.auth validated e)
        (accept_json-Admits validated (d.from_slice callback.body))

  pub push_callback-Admits : Admits admitted s (push_callback d callback s).1
  unfolding push_callback
  push_callback-Admits = after_check-Admits (validate_headers d s.auth callback.headers) refl
