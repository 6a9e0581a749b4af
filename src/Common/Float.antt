-- ===== src/Common/Float.antt =====
-- Rust's `f64` as its 64 bits, with the three operations that the source uses to check and to
-- order weights.
use missive.Common.{ℕ, ◌+◌, ◌-◌, ◌%◌, Bool, ◌&&◌, compare, Ordering, ltb, leb, if◌then◌else◌}

abbrev pub F64 : Type 0
F64 = ℕ

abbrev infinity_bits : ℕ
infinity_bits = 0x7FF0000000000000

-- 1.0
abbrev pub one_bits : F64
one_bits = 0x3FF0000000000000

unfoldable pub is_finite : F64 → Bool
is_finite w = ltb (w % 0x8000000000000000) infinity_bits

-- `w > 0.0`: the sign is clear, and `w` is neither zero nor NaN.
unfoldable pub is_positive : F64 → Bool
is_positive w = ltb 0 w && leb w infinity_bits

-- `f64::total_cmp` compares by this number.
unfoldable pub total_key : F64 → ℕ
total_key w = if ltb w 0x8000000000000000 then w + 0x8000000000000000 else 0xFFFFFFFFFFFFFFFF - w

abbrev pub total_cmp : F64 → F64 → Ordering
total_cmp a b = compare (total_key a) (total_key b)
