-- ===== src/Gateway/Session/Boundary.antt =====
-- crates/missive-gateway/src/session.rs: where the daily boundary lies, and that a reset settles it.
use missive.Common.{ℕ, ◌+◌, ◌*◌, ◌%◌, ◌≤◌, ◌<◌, ◌≡◌, refl, Bool, false, some, arith, [], List}
use missive.Core.Error.{ok}
use missive.Core.Error.Laws.{>>=-eq-ok}
use missive.Gateway.Session.{
  GatewaySessionResetReason, GatewaySessionRecord, GatewaySessionResetMode,
  GatewaySessionResetEvaluation, daily_reset_boundary, time_before, evaluate_session_reset,
  reset_reasons, idle_reset_due, daily_reset_due, daily_reference_timestamp,
}

module _ (epoch_days : ℕ) (in_range : ℕ → Bool) where
  -- A daily boundary, if one comes back, is the last time at the given hour that is not after now.
  pub daily_reset_boundary_lem :
      (now hour boundary : ℕ)
      → daily_reset_boundary epoch_days in_range now hour ≡ ok boundary
      → (hour ≤ 23) × (boundary ≤ now) × (now < boundary + 86400) × (boundary % 86400 ≡ hour * 3600)
  unfolding daily_reset_boundary time_before
  daily_reset_boundary_lem now hour boundary h =
      (ground arith, ground arith, ground arith, ground arith)

  idle-settled :
      (session : GatewaySessionRecord) (now : ℕ) (due : Bool)
      → now ≤ epoch_days * 86400 + 0x7FFFFFFFFFFFFFFF
      → session.last_active_at ≡ now
      → idle_reset_due epoch_days in_range session now ≡ ok due
      → due ≡ false
  unfolding idle_reset_due
  idle-settled session now due range fresh h = ground arith

  daily-settled :
      (session : GatewaySessionRecord) (now : ℕ) (due : Bool)
      → daily_reference_timestamp session ≡ now
      → daily_reset_due epoch_days in_range session now ≡ ok due
      → due ≡ false
  unfolding daily_reset_due
  daily-settled session now due fresh h =
      let (boundary, made, last) =
        >>=-eq-ok (daily_reset_boundary epoch_days in_range now session.daily_reset_hour) _ h in
      let (_, below, _, _) = daily_reset_boundary_lem now session.daily_reset_hour boundary made in
      ground arith

  module _ (session : GatewaySessionRecord) (now : ℕ)
      (range : now ≤ epoch_days * 86400 + 0x7FFFFFFFFFFFFFFF)
      (active : session.last_active_at ≡ now)
      (fresh : daily_reference_timestamp session ≡ now) where
    reasons-settled :
        (mode : GatewaySessionResetMode) (reasons : List GatewaySessionResetReason)
        → reset_reasons epoch_days in_range session now mode ≡ ok reasons
        → reasons ≡ []
    unfolding reset_reasons
    reasons-settled GatewaySessionResetMode.off reasons h = ground arith
    reasons-settled GatewaySessionResetMode.daily reasons h =
        let (due, made, last) = >>=-eq-ok (daily_reset_due epoch_days in_range session now) _ h in
        let none_due = daily-settled session now due fresh made in ground arith
    reasons-settled GatewaySessionResetMode.idle reasons h =
        let (due, made, last) = >>=-eq-ok (idle_reset_due epoch_days in_range session now) _ h in
        let none_due = idle-settled session now due range active made in ground arith
    reasons-settled GatewaySessionResetMode.both reasons h =
        let (idle_due, made, more) =
          >>=-eq-ok (idle_reset_due epoch_days in_range session now) _ h in
        let (due, done, last) =
          >>=-eq-ok (daily_reset_due epoch_days in_range session now) _ more in
        let no_idle = idle-settled session now idle_due range active made in
        let no_daily = daily-settled session now due fresh done in ground arith

  fresh_reference :
      (session : GatewaySessionRecord) (now : ℕ)
      → daily_reference_timestamp
          (record session { last_active_at = now; last_reset_at = some now })
        ≡ now
  unfolding daily_reference_timestamp
  fresh_reference session now = ground arith

  -- A session that was active and reset just now is not reset again: an evaluation at that time, if
  -- it succeeds, gives no reason.
  pub evaluate_session_reset-settled :
      (session : GatewaySessionRecord) (now : ℕ) (out : GatewaySessionResetEvaluation)
      → now ≤ epoch_days * 86400 + 0x7FFFFFFFFFFFFFFF
      → evaluate_session_reset epoch_days in_range
          (record session { last_active_at = now; last_reset_at = some now })
          now
        ≡ ok out
      → (out.should_reset ≡ false) × (out.reasons ≡ [])
  unfolding evaluate_session_reset
  evaluate_session_reset-settled session now out range h =
      let touched : GatewaySessionRecord = record session {
        last_active_at = now;
        last_reset_at = some now;
      } in
      let (reasons, made, last) =
        >>=-eq-ok (reset_reasons epoch_days in_range touched now session.reset_mode) _ h in
      let nothing_due =
        reasons-settled touched now range refl (fresh_reference session now) session.reset_mode
          reasons made in
      (ground arith, ground arith)
