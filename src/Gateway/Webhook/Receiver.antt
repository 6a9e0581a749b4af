-- ===== src/Gateway/Webhook/Receiver.antt =====
-- crates/missive-gateway/src/webhook.rs: the receiver's state, and what a callback does to it. A
-- callback is handled as a whole: callbacks that overlap are not modelled.
use missive.Common.{
  ℕ, ◌+◌, ◌%◌, ◌^◌, Bool, true, false, ◌||◌, Option, none, some, List, [], ◌∷◌, ◌++◌, String, any,
  filter_by, leb, if◌then◌else◌, unwrap_or,
}
use missive.Common.Str.{Str, lit, str_eq, is_ascii_alphanumeric, to_ascii_lowercase, starts_with}
use missive.Core.Error.{Result, ok, err}
use missive.Core.Json.{Value, Items, Fields}
use missive.Gateway.Webhook.{
  Bytes, WebhookAuth, AuthCheck, Decoders, StoreFailure, Callback, StreamResponse, PayloadDetails,
  validate_headers, from_stream_response,
}

-- `contains` of a text.
unfoldable pub contains_text : Str → Str → Bool
contains_text part [] = starts_with [] part
contains_text part (c ∷ s) = starts_with (c ∷ s) part || contains_text part s

abbrev pub secret_keys : List Str
secret_keys =
    lit "authorization"
    ∷ lit "proxyauthorization"
    ∷ lit "token"
    ∷ lit "accesstoken"
    ∷ lit "refreshtoken"
    ∷ lit "apikey"
    ∷ lit "apiKey"
    ∷ lit "password"
    ∷ lit "secret"
    ∷ lit "credentials"
    ∷ lit "cookie"
    ∷ lit "setcookie"
    ∷ []

unfoldable pub is_secret_key : Str → Bool
is_secret_key key =
    let normalized = to_ascii_lowercase (filter_by is_ascii_alphanumeric key) in
    any (str_eq normalized) secret_keys
    || contains_text (lit "token") normalized
    || contains_text (lit "secret") normalized
    || contains_text (lit "password") normalized

abbrev pub redact_value : Bool → Value → Value
redact_value true value = Value.text (lit "[REDACTED]")
redact_value false value = value

unfoldable mutual
  pub redact_json : Value → Value
  redact_json (Value.object fields) = Value.object (redact_fields fields)
  redact_json (Value.array items) = Value.array (redact_items items)
  redact_json Value.null = Value.null
  redact_json (Value.boolean b) = Value.boolean b
  redact_json (Value.number s) = Value.number s
  redact_json (Value.text s) = Value.text s

  pub redact_items : Items → Items
  redact_items Items.nil = Items.nil
  redact_items (Items.item value items) = Items.item (redact_json value) (redact_items items)

  pub redact_fields : Fields → Fields
  redact_fields Fields.end = Fields.end
  redact_fields (Fields.field key value fields) =
      Fields.field key (redact_value (is_secret_key key) (redact_json value)) (redact_fields fields)

-- The event of a callback: what is accepted, with its payload, the protocol version and whether the
-- header was checked; or the status, the reason and the payload of a rejection.
pub data WebhookEvent : Type 0 where
  accepted : PayloadDetails → Value → Str → Bool → WebhookEvent
  rejected : ℕ → String → Option Value → Bool → WebhookEvent

-- The ids of the contexts and the tasks that the store has, and its events.
pub record EventStore : Type 0 where
  pub contexts : List Str
  pub tasks : List Str
  pub events : List WebhookEvent

pub data ShutdownReason : Type 0 where
  max_events timeout signal server_stopped : ShutdownReason

-- `accepted` and `rejected` are `AtomicU64`.
pub record WebhookAppState : Type 0 where
  pub auth : WebhookAuth
  pub max_events : Option ℕ
  pub accepted_count : ℕ
  pub rejected_count : ℕ
  pub protocol_version : Str
  pub shutdown : Option ShutdownReason
  pub store : EventStore

pub record Response : Type 0 where
  pub status : ℕ
  pub reason : String

-- `fetch_add`, which wraps around.
abbrev pub next_u64 : ℕ → ℕ
next_u64 n = (n + 1) % 2 ^ 64

-- A context that the store does not have is added; a task that it does not have is left out.
abbrev pub with_context : Option Str → List Str → List Str
with_context none contexts = contexts
with_context (some id) contexts = if any (str_eq id) contexts then contexts else contexts ++ id ∷ []

abbrev pub known_task : Option Str → List Str → Option Str
known_task none tasks = none
known_task (some id) tasks = if any (str_eq id) tasks then some id else none

unfoldable pub normalize_event_links : EventStore → WebhookEvent → EventStore × WebhookEvent
normalize_event_links store (WebhookEvent.rejected status reason payload validated) =
    (store, WebhookEvent.rejected status reason payload validated)
normalize_event_links store (WebhookEvent.accepted details payload version validated) = (
  record store { contexts = with_context details.context_id store.contexts },
  WebhookEvent.accepted (record details { task_id = known_task details.task_id store.tasks })
      payload version validated,
)

abbrev pub append_normalized : EventStore × WebhookEvent → EventStore
append_normalized (store, event) = record store { events = store.events ++ event ∷ [] }

-- The store after the attempt, and whether the event is kept.
unfoldable pub append_event :
    Option StoreFailure → EventStore → WebhookEvent → EventStore × Result (Unit {0})
append_event (some (StoreFailure.before_context e)) store event = (store, err e)
append_event (some (StoreFailure.after_context e)) store event =
    ((normalize_event_links store event).0, err e)
append_event none store event = (append_normalized (normalize_event_links store event), ok tt)

abbrev pub request_shutdown : Option ShutdownReason → ShutdownReason → Option ShutdownReason
request_shutdown none reason = some reason
request_shutdown (some earlier) reason = some earlier

abbrev pub is_reached : Option ℕ → ℕ → Bool
is_reached none count = false
is_reached (some n) count = leb n count

unfoldable pub maybe_shutdown_after_max_events : WebhookAppState → WebhookAppState
maybe_shutdown_after_max_events s =
    if is_reached s.max_events s.accepted_count
    then record s { shutdown = request_shutdown s.shutdown ShutdownReason.max_events }
    else s

abbrev pub internal_error : WebhookAppState → EventStore → Response × WebhookAppState
internal_error s store =
    (record { status = 500; reason = "persistence_failed" }, record s { store = store })

abbrev pub rejected_with :
    WebhookAppState → ℕ → String → EventStore × Result (Unit {0}) → Response × WebhookAppState
rejected_with s status reason (store, ok done) = (
  record { status = status; reason = reason },
  record s { rejected_count = next_u64 s.rejected_count; store = store },
)
rejected_with s status reason (store, _) = internal_error s store

abbrev pub accepted_with :
    WebhookAppState → EventStore × Result (Unit {0}) → Response × WebhookAppState
accepted_with s (store, ok done) = (
  record { status = 202; reason = "" },
  maybe_shutdown_after_max_events
      (record s { accepted_count = next_u64 s.accepted_count; store = store }),
)
accepted_with s (store, _) = internal_error s store

module _ (d : Decoders) (callback : Callback) (s : WebhookAppState) where
  unfoldable pub reject_callback : ℕ → String → Option Value → Bool → Response × WebhookAppState
  reject_callback status reason payload validated = rejected_with s status reason (
      append_event callback.failure s.store (WebhookEvent.rejected status reason payload validated))

  abbrev pub visible_text : Option Bytes → Option Str
  visible_text none = none
  visible_text (some bytes) = if d.is_visible bytes then some bytes else none

  -- The steps of `handle_authorized_callback`, the last one first.
  abbrev pub accept_details : Bool → Value → Result PayloadDetails → Response × WebhookAppState
  accept_details validated raw (ok details) = accepted_with s (
      append_event callback.failure s.store (
        WebhookEvent.accepted details (redact_json raw)
          (unwrap_or (visible_text (callback.headers (lit "A2A-Version"))) s.protocol_version)
          validated))
  accept_details validated raw _ =
      reject_callback 400 "invalid_a2a_identifiers" (some (redact_json raw)) validated

  abbrev pub accept_response : Bool → Value → Option StreamResponse → Response × WebhookAppState
  accept_response validated raw none =
      reject_callback 400 "invalid_a2a_stream_response" (some (redact_json raw)) validated
  accept_response validated raw (some response) =
      accept_details validated raw (from_stream_response response)

  abbrev pub accept_json : Bool → Option Value → Response × WebhookAppState
  accept_json validated none = reject_callback 400 "invalid_json" none validated
  accept_json validated (some raw) = accept_response validated raw (d.from_value raw)

  unfoldable pub handle_authorized_callback : Bool → Response × WebhookAppState
  handle_authorized_callback validated = accept_json validated (d.from_slice callback.body)

  abbrev pub after_check : AuthCheck → Response × WebhookAppState
  after_check (AuthCheck.refused message) = reject_callback 401 "auth_failed" none false
  after_check (AuthCheck.passed validated) = handle_authorized_callback validated

  unfoldable pub push_callback : Response × WebhookAppState
  push_callback = after_check (validate_headers d s.auth callback.headers)
