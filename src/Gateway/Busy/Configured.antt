-- ===== src/Gateway/Busy/Configured.antt =====
-- The policy that crates/missive-core/src/config.rs gives to a source, applied by
-- crates/missive-gateway/src/busy.rs.
use missive.Common.{Option, ◌≡◌}
use missive.Common.Str.{Str}
use missive.Core.Error.{ok, check_some, Returns}
use missive.Core.Config.{BusyInputConfig}
use missive.Core.Config.Text.{validate_named_config_identifier}
use missive.Core.Config.Loaded.{LoadedConfig, busy_input_config_for_source}
use missive.Core.Config.Discovery.{Host, ConfigDiscovery, load}
use missive.Core.Config.Effective.{load-IsLoaded}
use missive.Core.Config.BusyPolicy.{busy_input_config_for_source-valid}
use missive.Gateway.Input.{BusyInput, BusyInputState}
use missive.Gateway.Busy.{apply_busy_input}
use missive.Gateway.Busy.Modes.{apply_busy_input-Returns}

-- When `load` has given a configuration, and the source has an acceptable name or none, the
-- configuration has a policy for its busy input, with which `apply_busy_input` comes back with an
-- outcome or an error value: no steering falls back to steering without end.
pub load-apply_busy_input-Returns :
    (host : Host) (d : ConfigDiscovery) (l : LoadedConfig) (source : Option Str)
    (s : BusyInputState) (input : BusyInput)
    → load host d ≡ ok l
    → check_some validate_named_config_identifier source ≡ ok tt
    → (policy : BusyInputConfig) × (busy_input_config_for_source l source ≡ ok policy)
      × Returns (apply_busy_input 2 policy s input)
load-apply_busy_input-Returns host d l source s input h named =
    let (policy, e, valid) =
      busy_input_config_for_source-valid host l source (load-IsLoaded host d l h) named in
    let (back, more) = apply_busy_input-Returns policy s input valid in (policy, e, back)
