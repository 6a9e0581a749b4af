-- ===== src/Gateway/Jobs/Backoff.antt =====
-- crates/missive-gateway/src/jobs.rs: the pause before a job is tried again.
use missive.Common.{ℕ, zero, ◌-◌, ◌≤◌, ◌<◌, min, arith}
use native.Mathlib.Nat.{pow-le-pow_right}
use missive.Gateway.Jobs.{bounded_backoff}

-- The pause is a second at least and half a minute at most, and no shorter after more attempts.
pub bounded_backoff-bounds :
    (n m : ℕ)
    → n ≤ m
    → (1000 ≤ bounded_backoff n)
      × (bounded_backoff n ≤ bounded_backoff m)
      × (bounded_backoff m ≤ 30000)
unfolding bounded_backoff
bounded_backoff-bounds n m h =
    let two : zero < 2 = omega arith in
    let base = pow-le-pow_right two {i = 0} {j = min (n - 1) 5} (omega arith) in
    let more = pow-le-pow_right two {i = min (n - 1) 5} {j = min (m - 1) 5} (omega arith) in
    (omega arith, omega arith, omega arith)
