-- ===== src/Gateway/Session.antt =====
-- crates/missive-gateway/src/session.rs: when a session is reset, after idle time or at a daily hour.
--
-- A time is the number of whole seconds since the midnight `epoch_days` days before the Unix epoch,
-- the first that chrono takes; the fraction of a second, which the source keeps in a time that it
-- reads, never decides a comparison with the whole seconds that it computes.
pub mod Boundary
mod Examples
use missive.Common.{
  ℕ, ◌+◌, ◌*◌, ◌-◌, ◌/◌, min, Bool, true, false, not, Option, none, some, List, [], ◌∷◌, ◌++◌, leb,
  ltb, ◌==◌, if◌then◌else◌, is_empty,
}
use missive.Core.Error.{Result, ok, err, ◌>>=◌, ◌>>◌, fail_if, ok_or, validation_error}

pub data GatewaySessionResetMode : Type 0 where
  off daily idle both : GatewaySessionResetMode

pub data GatewaySessionResetReason : Type 0 where
  daily idle : GatewaySessionResetReason

-- The columns that the rules read.
pub record GatewaySessionRecord : Type 0 where
  pub reset_mode : GatewaySessionResetMode
  pub daily_reset_hour : ℕ
  pub idle_timeout_seconds : Option ℕ
  pub last_active_at : ℕ
  pub last_reset_at : Option ℕ

pub record GatewaySessionResetEvaluation : Type 0 where
  pub now : ℕ
  pub should_reset : Bool
  pub reasons : List GatewaySessionResetReason

unfoldable pub daily_reference_timestamp : GatewaySessionRecord → ℕ
daily_reference_timestamp session = elim session.last_reset_at [
  | none ↦ session.last_active_at
  | some last_reset ↦
      if ltb last_reset session.last_active_at then session.last_active_at else last_reset
]

-- `in_range` stands for the seconds that chrono takes for a time.
module _ (epoch_days : ℕ) (in_range : ℕ → Bool) where
  -- The sum saturates at the greatest i64.
  unfoldable pub idle_reset_due : GatewaySessionRecord → ℕ → Result Bool
  idle_reset_due session now = do
    timeout ←
        ok_or session.idle_timeout_seconds
          (validation_error "gateway session idle reset mode requires idle_timeout_seconds")
    fail_if (timeout == 0)
        (validation_error "gateway session idle_timeout_seconds must be greater than zero")
    fail_if (ltb 0x7FFFFFFFFFFFFFFF timeout)
        (validation_error "gateway session idle_timeout_seconds is too large")
    ok (ltb (min (session.last_active_at + timeout) (epoch_days * 86400 + 0x7FFFFFFFFFFFFFFF)) now)

  -- `from_unix_timestamp`, of a time that may lie `back` seconds before another.
  unfoldable pub time_before : ℕ → ℕ → Result ℕ
  time_before t back =
      let invalid =
        validation_error "invalid unix timestamp {seconds}: value is outside supported range" in
      if ltb t back then err invalid else if in_range (t - back) then ok (t - back) else err invalid

  unfoldable pub daily_reset_boundary : ℕ → ℕ → Result ℕ
  unfolding time_before
  daily_reset_boundary now reset_hour = do
    fail_if (ltb 23 reset_hour) (
        validation_error
          "gateway session daily_reset_hour must be between 0 and 23, got {reset_hour}")
    let candidate = now / 86400 * 86400 + reset_hour * 3600
    time_before candidate (if ltb now candidate then 86400 else 0)

  unfoldable pub daily_reset_due : GatewaySessionRecord → ℕ → Result Bool
  unfolding daily_reset_boundary daily_reference_timestamp
  daily_reset_due session now = do
    boundary ← daily_reset_boundary now session.daily_reset_hour
    ok (ltb (daily_reference_timestamp session) boundary)

  abbrev pub reason_if : GatewaySessionResetReason → Bool → List GatewaySessionResetReason
  reason_if reason true = reason ∷ []
  reason_if reason false = []

  unfoldable pub reset_reasons :
      GatewaySessionRecord → ℕ → GatewaySessionResetMode → Result (List GatewaySessionResetReason)
  unfolding idle_reset_due daily_reset_due
  reset_reasons session now GatewaySessionResetMode.off = ok []
  reset_reasons session now GatewaySessionResetMode.daily = do
    due ← daily_reset_due session now
    ok (reason_if GatewaySessionResetReason.daily due)
  reset_reasons session now GatewaySessionResetMode.idle = do
    due ← idle_reset_due session now
    ok (reason_if GatewaySessionResetReason.idle due)
  reset_reasons session now GatewaySessionResetMode.both = do
    idle_due ← idle_reset_due session now
    daily_due ← daily_reset_due session now
    ok (
        reason_if GatewaySessionResetReason.idle idle_due
        ++ reason_if GatewaySessionResetReason.daily daily_due)

  unfoldable pub evaluate_session_reset :
      GatewaySessionRecord → ℕ → Result GatewaySessionResetEvaluation
  unfolding reset_reasons
  evaluate_session_reset session now = do
    reasons ← reset_reasons session now session.reset_mode
    ok (record { now = now; should_reset = not (is_empty reasons); reasons = reasons })
