-- ===== src/Cli/Barrier/Ready.antt =====
-- crates/missive-cli/src/barrier.rs: an operation that was prepared is one that the polling may take.
use missive.Common.{
  ℕ, zero, suc, ◌*◌, ◌≤◌, min, false, ◌||◌, Option, none, some, length, is_empty, ltb, ◌==◌, ◌≡◌,
  refl, subst, arith, ◌⊎◌, inl, inr,
}
use missive.Common.Str.{Str, str_eq→eq, trim}
use missive.Core.Error.{ok, fail_if, ok_or}
use missive.Core.Error.Laws.{fail_if-ok, >>=-eq-ok, ok-injective}
use missive.Core.Ids.{new_context_id, new_group_name, validate_opaque_identifier}
use missive.Cli.Barrier.Refresh.{BarrierOperation}
use missive.Common.Decimal.{u64_max, parse_u64}
use missive.Cli.Barrier.Prepare.{
  BarrierArgs, BcastReference, GroupStore, duration_parts, parse_duration_arg, duration_or,
  validate_non_negative_i32, differs_from, reference_group, reference_context, context_value,
  unwrap_required, prepare_barrier_operation,
}

duration_parts-unit :
    (value : Str) (parts : Str × ℕ) → duration_parts value ≡ some parts → 1 ≤ parts.1
unfolding duration_parts
duration_parts-unit value parts h = ground arith

product-pos : (m n : ℕ) → 1 ≤ m → 1 ≤ n → 1 ≤ m * n
product-pos zero n g h = absurd (omega arith)
product-pos (suc m) n g h = omega arith

parse_duration_arg-bounds :
    (given : Str) (n : ℕ) → parse_duration_arg given ≡ ok n → (1 ≤ n) × (n ≤ u64_max)
unfolding parse_duration_arg
parse_duration_arg-bounds given n h =
    let (parts, e1, h1) = >>=-eq-ok (ok_or (duration_parts (trim given)) _) _ h in
    let (count, e2, h2) = >>=-eq-ok (ok_or (parse_u64 parts.0) _) _ h1 in
    let unit = duration_parts-unit (trim given) parts (ground arith) in
    let (u3, e3, h3) = >>=-eq-ok (fail_if (count == 0) _) _ h2 in
    let (u4, e4, h4) = >>=-eq-ok (fail_if (ltb u64_max (count * parts.1)) _) _ h3 in
    let positive : 1 ≤ count = ground (arith, fail_if-ok (count == 0) _ e3) in
    let small : count * parts.1 ≤ u64_max =
      ground (arith, fail_if-ok (ltb u64_max (count * parts.1)) _ e4) in
    subst (λ k. (1 ≤ k) × (k ≤ u64_max)) (ok-injective h4)
      (product-pos count parts.1 positive unit, small)

duration_or-bounds :
    (given : Option Str) (default n : ℕ)
    → 1 ≤ default
    → default ≤ u64_max
    → duration_or given default ≡ ok n
    → (1 ≤ n) × (n ≤ u64_max)
duration_or-bounds none default n low high h = ground arith
duration_or-bounds (some given) default n low high h = parse_duration_arg-bounds given n h

context_value-agrees :
    (explicit from_bcast : Option Str) (value : Str)
    → context_value explicit from_bcast ≡ ok value
    → (from_bcast ≡ none) ⊎ (from_bcast ≡ some value)
unfolding context_value
context_value-agrees (some explicit) none value h = inl refl
context_value-agrees (some explicit) (some t) value h = ground (arith, str_eq→eq t explicit)
context_value-agrees none (some t) value h = inr (ground arith)
context_value-agrees none none value h = absurd cc

required-bounds :
    (required size : ℕ)
    → ((required == 0) || ltb size required) ≡ false
    → (1 ≤ required) × (required ≤ size)
required-bounds required size h = ground arith

interval-bounds :
    (interval : ℕ) → 1 ≤ interval → (1 ≤ min interval 5000) × (min interval 5000 ≤ 5000)
interval-bounds interval h = (omega arith, omega arith)

new_context_id-valid :
    (value context_id : Str)
    → new_context_id value ≡ ok context_id
    → (validate_opaque_identifier context_id ≡ ok tt) × (value ≡ context_id)
new_context_id-valid value context_id h =
    let (u, valid, e) = >>=-eq-ok (validate_opaque_identifier value) _ h in
    let same = ok-injective e in
    (subst (λ c. validate_opaque_identifier c ≡ ok tt) same valid, same)

-- The bounds that the rest of the command relies on, and the agreement with the broadcast.
unfoldable pub IsReady : Option BcastReference → BarrierOperation → Type 0
IsReady reference operation =
    (1 ≤ operation.required)
    × (operation.required ≤ length operation.members)
    × (1 ≤ operation.timeout)
    × (operation.timeout ≤ u64_max)
    × (1 ≤ operation.interval)
    × (operation.interval ≤ 5000)
    × (validate_opaque_identifier operation.context_id ≡ ok tt)
    × ((reference_context reference ≡ none)
        ⊎ (reference_context reference ≡ some operation.context_id))

-- An operation that was prepared asks for one member at least and no more than the group has, has a
-- timeout and an interval above zero, the interval five seconds at most, and is about a valid context,
-- which is that of the broadcast if it names one.
pub prepare_barrier_operation-IsReady :
    (store : GroupStore) (args : BarrierArgs) (reference : Option BcastReference)
    (operation : BarrierOperation)
    → prepare_barrier_operation store args reference ≡ ok operation
    → IsReady reference operation
unfolding prepare_barrier_operation IsReady
prepare_barrier_operation-IsReady store args reference operation h =
    let (u1, e1, h1) = >>=-eq-ok (validate_non_negative_i32 args.history_length) _ h in
    let (u2, e2, h2) =
      >>=-eq-ok (fail_if (differs_from (reference_group reference) args.group) _) _ h1 in
    let (value, e3, h3) =
      >>=-eq-ok (context_value args.context (reference_context reference)) _ h2 in
    let (context_id, e4, h4) = >>=-eq-ok (new_context_id value) _ h3 in
    let (group_name, e5, h5) = >>=-eq-ok (new_group_name args.group) _ h4 in
    let (found, e6, h6) = >>=-eq-ok (store.get_group group_name) _ h5 in
    let (group, e7, h7) = >>=-eq-ok (ok_or found _) _ h6 in
    let (members, e8, h8) = >>=-eq-ok (store.list_group_members group) _ h7 in
    let (u9, e9, h9) = >>=-eq-ok (fail_if (is_empty members) _) _ h8 in
    let required = unwrap_required args.required (length members) in
    let (u10, e10, h10) =
      >>=-eq-ok (fail_if ((required == 0) || ltb (length members) required) _) _ h9 in
    let (timeout, e11, h11) = >>=-eq-ok (duration_or args.timeout 30000) _ h10 in
    let (interval, e12, h12) = >>=-eq-ok (duration_or args.interval 1000) _ h11 in
    let bounds = fail_if-ok ((required == 0) || ltb (length members) required) _ e10 in
    let (low, high) =
      duration_or-bounds args.timeout 30000 timeout (omega arith) (omega arith) e11 in
    let (least, _) =
      duration_or-bounds args.interval 1000 interval (omega arith) (omega arith) e12 in
    let asked = required-bounds required (length members) bounds in
    let capped = interval-bounds interval least in
    let (valid, same) = new_context_id-valid value context_id e4 in
    subst (IsReady reference) (ok-injective h12) (
      asked.0,
      asked.1,
      low,
      high,
      capped.0,
      capped.1,
      valid,
      subst (λ c. (reference_context reference ≡ none) ⊎ (reference_context reference ≡ some c))
          same (context_value-agrees args.context (reference_context reference) value e3),
    )
