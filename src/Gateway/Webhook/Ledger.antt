-- ===== src/Gateway/Webhook/Ledger.antt =====
-- What the receiver of crates/missive-gateway/src/webhook.rs has on record, and what one event does
-- to it.
use missive.Common.{
  ℕ, suc, ◌%◌, ◌^◌, Bool, true, false, not, ◌||◌, Option, none, some, List, [], ◌∷◌, ◌++◌, String,
  count_by, all, if◌then◌else◌, ◌≡◌, refl, ap, sym, ◌∙◌, subst, arith, Bool-cases, inl, inr,
}
use missive.Common.Str.{Str}
use missive.Common.StrMap.{is_some}
use missive.Core.Json.{Value}
use missive.Gateway.Webhook.{WebhookAuth, StoreFailure, PayloadDetails}
use missive.Gateway.Webhook.Receiver.{
  WebhookEvent, WebhookAppState, ShutdownReason, next_u64, append_event, append_normalized,
  normalize_event_links, request_shutdown, is_reached, maybe_shutdown_after_max_events,
  rejected_with, accepted_with,
}

abbrev pub is_accepted : WebhookEvent → Bool
is_accepted (WebhookEvent.accepted details payload version validated) = true
is_accepted (WebhookEvent.rejected status reason payload validated) = false

abbrev pub is_rejected : WebhookEvent → Bool
is_rejected e = not (is_accepted e)

abbrev pub requires : WebhookAuth → Bool
requires WebhookAuth.disabled = false
requires (WebhookAuth.header name token scheme) = true

-- An accepted event is marked as checked, when the receiver has a token.
abbrev pub is_authorised : WebhookAuth → WebhookEvent → Bool
is_authorised auth (WebhookEvent.accepted details payload version validated) =
    not (requires auth) || validated
is_authorised auth (WebhookEvent.rejected status reason payload validated) = true

pub record IsRecorded (s : WebhookAppState) : Type 0 where
  pub accepted : s.accepted_count ≡ count_by is_accepted s.store.events % 2 ^ 64
  pub rejected : s.rejected_count ≡ count_by is_rejected s.store.events % 2 ^ 64
  pub authorised : all (is_authorised s.auth) s.store.events ≡ true
  pub stopping : (not (is_reached s.max_events s.accepted_count) || is_some s.shutdown) ≡ true

pub count_by-last {ℓ} :
    {A : Type ℓ} (p : A → Bool) (xs : List A) (x : A)
    → count_by p (xs ++ x ∷ []) ≡ (if p x then suc (count_by p xs) else count_by p xs)
count_by-last p [] x = refl
count_by-last p (y ∷ xs) x = ground (arith, count_by-last p xs x)

all-last {ℓ} :
    {A : Type ℓ} (p : A → Bool) (xs : List A) (x : A)
    → all p xs ≡ true
    → p x ≡ true
    → all p (xs ++ x ∷ []) ≡ true
all-last p [] x h k = rw k refl
all-last p (y ∷ xs) x h k = ground (arith, all-last p xs x)

next_u64-count : (n c : ℕ) → n ≡ c % 2 ^ 64 → next_u64 n ≡ suc c % 2 ^ 64
next_u64-count n c h = omega arith

-- A context that was added changes nothing on record.
with_links-IsRecorded :
    (s : WebhookAppState) (event : WebhookEvent)
    → IsRecorded s
    → IsRecorded (record s { store = (normalize_event_links s.store event).0 })
unfolding normalize_event_links
with_links-IsRecorded s (WebhookEvent.accepted a b c v) r = record {
  accepted = r.accepted;
  rejected = r.rejected;
  authorised = r.authorised;
  stopping = r.stopping;
}
with_links-IsRecorded s (WebhookEvent.rejected a b c v) r = r

pub rejected_with-IsRecorded :
    (s : WebhookAppState) (status : ℕ) (reason : String) (failure : Option StoreFailure)
    (event : WebhookEvent)
    → is_accepted event ≡ false
    → IsRecorded s
    → IsRecorded (rejected_with s status reason (append_event failure s.store event)).1
unfolding append_event normalize_event_links
rejected_with-IsRecorded s status reason (some (StoreFailure.before_context e)) event h r = r
rejected_with-IsRecorded s status reason (some (StoreFailure.after_context e)) event h r =
    with_links-IsRecorded s event r
rejected_with-IsRecorded s status reason none (WebhookEvent.accepted a b c v) h r = absurd cc
rejected_with-IsRecorded s status reason none (WebhookEvent.rejected a b c v) h r =
    let event = WebhookEvent.rejected a b c v in
    record {
      accepted =
          r.accepted ∙ ap (λ n. n % 2 ^ 64) (sym (count_by-last is_accepted s.store.events event));
      rejected =
          next_u64-count s.rejected_count (count_by is_rejected s.store.events) r.rejected
          ∙ ap (λ n. n % 2 ^ 64) (sym (count_by-last is_rejected s.store.events event));
      authorised = all-last (is_authorised s.auth) s.store.events event r.authorised refl;
      stopping = r.stopping;
    }

requested :
    (reached : Bool) (earlier : Option ShutdownReason)
    → (not reached || is_some (request_shutdown earlier ShutdownReason.max_events)) ≡ true
requested true none = refl
requested true (some reason) = refl
requested false earlier = refl

-- The state with or without the request for a shutdown.
abbrev pub with_shutdown : WebhookAppState → Option ShutdownReason → WebhookAppState
with_shutdown s reason = record s { shutdown = reason }

pub maybe_shutdown-with_shutdown :
    (s : WebhookAppState)
    → (reason : Option ShutdownReason) × (maybe_shutdown_after_max_events s
        ≡ with_shutdown s reason)
      × ((not (is_reached s.max_events s.accepted_count) || is_some reason) ≡ true)
unfolding maybe_shutdown_after_max_events
maybe_shutdown-with_shutdown s = elim (Bool-cases (is_reached s.max_events s.accepted_count)) [
  | inl reached ↦ (
    request_shutdown s.shutdown ShutdownReason.max_events,
    rw reached refl,
    requested (is_reached s.max_events s.accepted_count) s.shutdown,
  )
  | inr below ↦ (s.shutdown, rw below refl, rw below refl)
]

maybe_shutdown-IsRecorded :
    (s : WebhookAppState)
    → s.accepted_count ≡ count_by is_accepted s.store.events % 2 ^ 64
    → s.rejected_count ≡ count_by is_rejected s.store.events % 2 ^ 64
    → all (is_authorised s.auth) s.store.events ≡ true
    → IsRecorded (maybe_shutdown_after_max_events s)
maybe_shutdown-IsRecorded s a r h =
    let (reason, same, stopping) = maybe_shutdown-with_shutdown s in
    subst IsRecorded (sym same)
      (record { accepted = a; rejected = r; authorised = h; stopping = stopping })

pub accepted_with-IsRecorded :
    (s : WebhookAppState) (failure : Option StoreFailure) (details : PayloadDetails)
    (payload : Value) (version : Str) (validated : Bool)
    → (not (requires s.auth) || validated) ≡ true
    → IsRecorded s
    → IsRecorded
        (accepted_with s (
          append_event failure s.store (WebhookEvent.accepted details payload version validated))).1
unfolding append_event normalize_event_links
accepted_with-IsRecorded s (some (StoreFailure.before_context e)) details payload version validated
      h r =
    r
accepted_with-IsRecorded s (some (StoreFailure.after_context e)) details payload version validated h
      r =
    with_links-IsRecorded s (WebhookEvent.accepted details payload version validated) r
accepted_with-IsRecorded s none details payload version validated h r =
    let (store, event) =
      normalize_event_links s.store (WebhookEvent.accepted details payload version validated) in
    maybe_shutdown-IsRecorded
      (record s {
        accepted_count = next_u64 s.accepted_count;
        store = append_normalized (store, event);
      })
      (next_u64-count s.accepted_count (count_by is_accepted s.store.events) r.accepted
        ∙ ap (λ n. n % 2 ^ 64) (sym (count_by-last is_accepted s.store.events event)))
      (r.rejected ∙ ap (λ n. n % 2 ^ 64) (sym (count_by-last is_rejected s.store.events event)))
      (all-last (is_authorised s.auth) s.store.events event r.authorised h)
