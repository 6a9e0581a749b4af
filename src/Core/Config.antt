-- ===== src/Core/Config.antt =====
-- crates/missive-core/src/config.rs, lines 610 to 680: the policy for busy input.
pub mod Text
pub mod Sections
pub mod Whole
pub mod Loaded
pub mod Discovery
pub mod References
pub mod Effective
pub mod BusyPolicy
pub mod Candidates
pub mod Redaction
pub mod Rounds
pub mod Secrets
pub mod Examples
use missive.Common.{ℕ, Bool, true, false, ◌==◌}
use missive.Core.Error.{Result, ◌>>◌, fail_if, config_error}

pub data BusyInputMode : Type 0 where
  queue interrupt steer : BusyInputMode

abbrev pub is_steer : BusyInputMode → Bool
is_steer BusyInputMode.steer = true
is_steer _ = false

-- `max_queue_depth` is a u16.
pub record BusyInputConfig : Type 0 where
  pub mode : BusyInputMode
  pub unsupported_steer_fallback : BusyInputMode
  pub interrupt_remote_cancel : Bool
  pub max_queue_depth : ℕ

-- `impl Default`.
abbrev pub default_busy_input : BusyInputConfig
default_busy_input = record {
  mode = BusyInputMode.queue;
  unsupported_steer_fallback = BusyInputMode.queue;
  interrupt_remote_cancel = true;
  max_queue_depth = 32;
}

unfoldable pub validate_positive_u16 : ℕ → Result (Unit {0})
validate_positive_u16 n = fail_if (n == 0) (config_error "{field} must be greater than zero")

-- `BusyInputConfig::validate`.
unfoldable pub validate_busy_input : BusyInputConfig → Result (Unit {0})
unfolding validate_positive_u16
validate_busy_input c = do
  validate_positive_u16 c.max_queue_depth
  fail_if (is_steer c.unsupported_steer_fallback)
      (config_error "{prefix}.unsupported_steer_fallback must be queue or interrupt")
