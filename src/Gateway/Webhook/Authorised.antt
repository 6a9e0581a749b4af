-- ===== src/Gateway/Webhook/Authorised.antt =====
-- Which callbacks crates/missive-gateway/src/webhook.rs accepts.
use missive.Common.{
  Bool, true, false, Option, none, some, String, ◌≡◌, refl, subst, arith, Bool-cases, inl, inr,
}
use missive.Common.Str.{Str, str_eq, str_eq_refl}
use missive.Gateway.Webhook.{
  WebhookAuth, AuthCheck, Decoders, StoreFailure, Callback, Bytes, validate_headers, check_value,
  expected_auth_header_value, constant_time_eq,
}
use missive.Gateway.Webhook.Auth.{constant_time_eq_iff}
use missive.Gateway.Webhook.Receiver.{
  WebhookAppState, WebhookEvent, rejected_with, reject_callback, after_check, push_callback,
  append_event,
}

-- The header has the scheme and the token, or the token alone, and nothing else.
abbrev pub has_value : Bytes → Option Bytes → Bool
has_value expected none = false
has_value expected (some value) = str_eq value expected

abbrev pub carries_token : WebhookAuth → (Str → Option Bytes) → Bool
carries_token WebhookAuth.disabled headers = true
carries_token (WebhookAuth.header name token scheme) headers =
    has_value (expected_auth_header_value scheme token) (headers name)

check_value-has_value :
    (d : Decoders) (expected : Bytes) (given : Option Bytes) (validated : Bool)
    → check_value d expected given ≡ AuthCheck.passed validated
    → has_value expected given ≡ true
check_value-has_value d expected none validated h = absurd cc
check_value-has_value d expected (some actual) validated h =
    let compared : constant_time_eq actual expected ≡ true = ground arith in
    let (same, back) = constant_time_eq_iff actual expected in
    subst (λ s. str_eq actual s ≡ true) (same compared) (str_eq_refl actual)

module _ (d : Decoders) (callback : Callback) (s : WebhookAppState) where
  pub validate_headers-carries_token :
      (auth : WebhookAuth) (validated : Bool)
      → validate_headers d auth callback.headers ≡ AuthCheck.passed validated
      → carries_token auth callback.headers ≡ true
  unfolding validate_headers
  validate_headers-carries_token WebhookAuth.disabled validated h = refl
  validate_headers-carries_token (WebhookAuth.header name token scheme) validated h =
      elim (Bool-cases (d.is_header_name name)) [
        | inl valid ↦
            check_value-has_value d (expected_auth_header_value scheme token)
              (callback.headers name) validated (ground arith)
        | inr invalid ↦ absurd (ground arith)
      ]

  refused-status :
      (failure : Option StoreFailure) (reason : String) (event : WebhookEvent)
      → (rejected_with s 401 reason (append_event failure s.store event)).0.status ≡ 202
      → ⊥
  unfolding append_event
  refused-status none reason event h = omega (arith, h)
  refused-status (some (StoreFailure.before_context e)) reason event h = omega (arith, h)
  refused-status (some (StoreFailure.after_context e)) reason event h = omega (arith, h)

  after_check-carries_token :
      (check : AuthCheck)
      → validate_headers d s.auth callback.headers ≡ check
      → (after_check d callback s check).0.status ≡ 202
      → carries_token s.auth callback.headers ≡ true
  unfolding reject_callback
  after_check-carries_token (AuthCheck.refused message) e h =
      absurd (refused-status callback.failure "auth_failed" _ h)
  after_check-carries_token (AuthCheck.passed validated) e h =
      validate_headers-carries_token s.auth validated e

  -- A callback that is answered with status 202 carries, in the header of the configuration, the very
  -- bytes of the scheme and the token, unless no header is required.
  pub push_callback-carries_token :
      (push_callback d callback s).0.status ≡ 202 → carries_token s.auth callback.headers ≡ true
  unfolding push_callback
  push_callback-carries_token h =
      after_check-carries_token (validate_headers d s.auth callback.headers) refl h
