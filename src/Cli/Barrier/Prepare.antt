-- ===== src/Cli/Barrier/Prepare.antt =====
-- crates/missive-cli/src/barrier.rs: the arguments of the command are made an operation.
use missive.Common.{
  ℕ, ◌*◌, min, Bool, true, false, not, ◌||◌, Option, none, some, List, [], ◌∷◌, length, is_empty,
  ltb, ◌==◌, if◌then◌else◌,
}
use mathlib.Core.Option
use missive.Common.Str.{Str, lit, str_eq, trim}
use missive.Common.Decimal.{u64_max, parse_u64}
use missive.Core.Error.{Result, ok, err, ◌>>=◌, ◌>>◌, fail_if, ok_or, validation_error}
use missive.Core.Ids.{new_context_id, new_group_name}
use missive.Store.Tasks.{TaskState}
use missive.Cli.Barrier.{GroupMember, BarrierFailurePolicy, from_args}
use missive.Cli.Barrier.Refresh.{BarrierOperation}

-- `strip_suffix`.
unfoldable pub strip_suffix : Str → Str → Option Str
strip_suffix [] suffix = if str_eq [] suffix then some [] else none
strip_suffix (c ∷ s) suffix =
    let deeper = Option.map (◌∷◌ c) (strip_suffix s suffix) in
    if str_eq (c ∷ s) suffix then some [] else deeper

-- The number and its unit in milliseconds: the first suffix that fits.
abbrev pub or_unit : Option Str → ℕ → Option (Str × ℕ) → Option (Str × ℕ)
or_unit (some number) unit other = some (number, unit)
or_unit none unit other = other

unfoldable pub duration_parts : Str → Option (Str × ℕ)
duration_parts value = or_unit (strip_suffix value (lit "ms")) 1 (
    or_unit (strip_suffix value (lit "s")) 1000 (
      or_unit (strip_suffix value (lit "m")) 60000
        (or_unit (strip_suffix value (lit "h")) 3600000 none)))

-- In milliseconds.
unfoldable pub parse_duration_arg : Str → Result ℕ
parse_duration_arg given = do
  (number, multiplier) ←
      ok_or (duration_parts (trim given))
        (validation_error "{flag} value {value:?} must use a duration suffix: ms, s, m, or h")
  count ← ok_or (parse_u64 number) (validation_error "{flag} value {value:?} has an invalid number")
  checked ←
      fail_if (count == 0) (validation_error "{flag} value {value:?} must be greater than zero")
  fits ←
      fail_if (ltb u64_max (count * multiplier))
        (validation_error "{flag} value {value:?} is too large")
  ok (count * multiplier)

-- An `i32` that is below zero or not.
pub data HistoryLength : Type 0 where
  negative : ℕ → HistoryLength
  natural : ℕ → HistoryLength

abbrev pub is_negative : Option HistoryLength → Bool
is_negative (some (HistoryLength.negative n)) = true
is_negative _ = false

unfoldable pub validate_non_negative_i32 : Option HistoryLength → Result (Unit {0})
validate_non_negative_i32 value =
    fail_if (is_negative value) (validation_error "{flag} must be greater than or equal to zero")

-- `task_ids_by_agent`, which later parts read, is left out.
pub record BcastReference : Type 0 where
  pub group : Option Str
  pub context_id : Option Str

pub record BarrierArgs : Type 0 where
  pub group : Str
  pub context : Option Str
  pub states : List TaskState
  pub required : Option ℕ
  pub timeout : Option Str
  pub interval : Option Str
  pub failure_policy : BarrierFailurePolicy
  pub is_local : Bool
  pub history_length : Option HistoryLength

-- What the store has on groups.
pub record GroupStore : Type 0 where
  pub get_group : Str → Result (Option Str)
  pub list_group_members : Str → Result (List GroupMember)

abbrev pub reference_group : Option BcastReference → Option Str
reference_group none = none
reference_group (some reference) = reference.group

abbrev pub reference_context : Option BcastReference → Option Str
reference_context none = none
reference_context (some reference) = reference.context_id

abbrev pub is_given : Option BcastReference → Bool
is_given none = false
is_given (some reference) = true

abbrev pub differs_from : Option Str → Str → Bool
differs_from none s = false
differs_from (some t) s = not (str_eq t s)

unfoldable pub context_value : Option Str → Option Str → Result Str
context_value (some explicit) from_bcast =
    fail_if (differs_from from_bcast explicit)
      (validation_error "--context {explicit:?} does not match --from-bcast context {from_bcast:?}")
    >> ok explicit
context_value none (some from_bcast) = ok from_bcast
context_value none none =
    err
      (validation_error "missive barrier requires --context <id> unless --from-bcast provides one")

abbrev pub unwrap_required : Option ℕ → ℕ → ℕ
unwrap_required none members = members
unwrap_required (some required) members = required

abbrev pub duration_or : Option Str → ℕ → Result ℕ
duration_or none default = ok default
duration_or (some value) default = parse_duration_arg value

unfoldable pub prepare_barrier_operation :
    GroupStore → BarrierArgs → Option BcastReference → Result BarrierOperation
prepare_barrier_operation store args reference = do
  history ← validate_non_negative_i32 args.history_length
  same_group ←
      fail_if (differs_from (reference_group reference) args.group)
        (validation_error "--from-bcast result is for group {reference_group:?}, not {:?}")
  value ← context_value args.context (reference_context reference)
  context_id ← new_context_id value
  group_name ← new_group_name args.group
  found ← store.get_group group_name
  group ← ok_or found (validation_error "group {:?} does not exist")
  members ← store.list_group_members group
  some_members ←
      fail_if (is_empty members)
        (validation_error "group {:?} has no members for barrier synchronization")
  let required = unwrap_required args.required (length members)
  in_bounds ←
      fail_if ((required == 0) || ltb (length members) required)
        (validation_error "--required must be between 1 and the group member count ({})")
  timeout ← duration_or args.timeout 30000
  interval ← duration_or args.interval 1000
  ok (record {
    group = group;
    members = members;
    context_id = context_id;
    targets = from_args args.states;
    required = required;
    timeout = timeout;
    interval = min interval 5000;
    failure_policy = args.failure_policy;
    is_local = args.is_local;
    from_bcast = is_given reference;
  })
