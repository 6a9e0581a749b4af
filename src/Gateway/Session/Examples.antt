-- ===== src/Gateway/Session/Examples.antt =====
-- Runs of crates/missive-gateway/src/session.rs on a session that resets daily at four and when idle.
use missive.Common.{ℕ, ◌≡◌, refl, ◌≤◌, ◌<◌, ◌+◌, ◌*◌, ◌%◌, Bool, true, false, none, some, [], arith}
use missive.Gateway.Session.{
  GatewaySessionRecord, GatewaySessionResetMode, GatewaySessionResetEvaluation,
  daily_reset_boundary, evaluate_session_reset,
}
use missive.Gateway.Session.Boundary.{daily_reset_boundary_lem, evaluate_session_reset-settled}

-- The days from chrono's first midnight to the Unix epoch.
abbrev epoch_days : ℕ
epoch_days = 96465292

abbrev any_time : ℕ → Bool
any_time t = true

abbrev now : ℕ
now = 96465292 * 86400 + 1735790340

abbrev session : GatewaySessionRecord
session = record {
  reset_mode = GatewaySessionResetMode.both;
  daily_reset_hour = 4;
  idle_timeout_seconds = some 600;
  last_active_at = 5;
  last_reset_at = none;
}

daily_reset_boundary_lem_example :
    (4 ≤ 23)
    × (96465292 * 86400 + 1735704000 ≤ now)
    × (now < 96465292 * 86400 + 1735704000 + 86400)
    × ((96465292 * 86400 + 1735704000) % 86400 ≡ 4 * 3600)
unfolding daily_reset_boundary
daily_reset_boundary_lem_example =
    daily_reset_boundary_lem epoch_days any_time now 4 (96465292 * 86400 + 1735704000) refl

abbrev settled : GatewaySessionResetEvaluation
settled = record { now = now; should_reset = false; reasons = [] }

evaluate_session_reset-settled_example : (settled.should_reset ≡ false) × (settled.reasons ≡ [])
unfolding evaluate_session_reset
evaluate_session_reset-settled_example =
    evaluate_session_reset-settled epoch_days any_time session now settled (omega arith) refl
