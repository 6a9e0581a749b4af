-- ===== src/Common/Bits.antt =====
-- When the exclusive or of two numbers is zero, and the or.
pub use Prim.Native.Nat.{bit_or, bit_xor}
use Prim.Native.Nat.{
  ℕ, zero, suc, ◌/◌, ◌%◌, ◌≤◌, max, digits, differ, bit_or-bitwise, bit_xor-bitwise,
}
use mathlib.Core.Path.{◌≡◌, refl, ap, sym, ◌∙◌}
use native.Mathlib.Omega.{arith}

differ-eq : (x y : ℕ) → differ x y ≡ 0 → x ≡ y
differ-eq zero y h = sym h
differ-eq (suc x) zero h = absurd (omega arith)
differ-eq (suc x) (suc y) h = ap suc (differ-eq x y h)

differ_refl : (x : ℕ) → differ x x ≡ 0
differ_refl zero = refl
differ_refl (suc x) = differ_refl x

max-zero : (x y : ℕ) → max x y ≡ 0 → (x ≡ 0) × (y ≡ 0)
max-zero x y h = (omega arith, omega arith)

xor_digits-eq : (n a b : ℕ) → a ≤ n → digits (λ b. b) differ n a b ≡ 0 → a ≡ b
xor_digits-eq zero zero b h e = sym e
xor_digits-eq zero (suc a) b h e = absurd (omega arith)
xor_digits-eq (suc n) zero b h e = sym e
xor_digits-eq (suc n) (suc a) b h e =
    let high = xor_digits-eq n (suc a / 2) (b / 2) (omega arith) (omega arith) in
    let low = differ-eq (suc a % 2) (b % 2) (omega arith) in omega arith

xor_digits_refl : (n a : ℕ) → a ≤ n → digits (λ b. b) differ n a a ≡ 0
xor_digits_refl zero zero h = refl
xor_digits_refl zero (suc a) h = absurd (omega arith)
xor_digits_refl (suc n) zero h = refl
xor_digits_refl (suc n) (suc a) h =
    let high = xor_digits_refl n (suc a / 2) (omega arith) in
    let low = differ_refl (suc a % 2) in omega arith

or_digits-zero : (n a b : ℕ) → a ≤ n → digits (λ b. b) max n a b ≡ 0 → (a ≡ 0) × (b ≡ 0)
or_digits-zero zero zero b h e = (refl, e)
or_digits-zero zero (suc a) b h e = absurd (omega arith)
or_digits-zero (suc n) zero b h e = (refl, e)
or_digits-zero (suc n) (suc a) b h e =
    let (high_a, high_b) = or_digits-zero n (suc a / 2) (b / 2) (omega arith) (omega arith) in
    let (low_a, low_b) = max-zero (suc a % 2) (b % 2) (omega arith) in (omega arith, omega arith)

pub bit_xor-eq : (a b : ℕ) → bit_xor a b ≡ 0 → a ≡ b
bit_xor-eq a b h = xor_digits-eq a a b (omega arith) (sym (λ i. bit_xor-bitwise a b i) ∙ h)

pub bit_xor_refl : (a : ℕ) → bit_xor a a ≡ 0
bit_xor_refl a = (λ i. bit_xor-bitwise a a i) ∙ xor_digits_refl a a (omega arith)

pub bit_or-zero : (a b : ℕ) → bit_or a b ≡ 0 → (a ≡ 0) × (b ≡ 0)
bit_or-zero a b h = or_digits-zero a a b (omega arith) (sym (λ i. bit_or-bitwise a b i) ∙ h)

pub bit_or_zero : bit_or 0 0 ≡ 0
bit_or_zero = refl
