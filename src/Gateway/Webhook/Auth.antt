-- ===== src/Gateway/Webhook/Auth.antt =====
-- The check of crates/missive-gateway/src/webhook.rs on the auth header.
use missive.Common.{ℕ, true, [], ◌∷◌, length, ◌==◌, ◌≡◌, refl, ap, ◌∙◌, ◌↔◌, arith, subst}
use missive.Common.Bits.{bit_or, bit_xor, bit_xor-eq, bit_xor_refl, bit_or-zero, bit_or_zero}
use missive.Gateway.Webhook.{Bytes, diff_bytes, constant_time_eq}

diff_bytes-zero :
    (diff : ℕ) (left right : Bytes)
    → diff_bytes diff left right ≡ 0
    → (diff ≡ 0) × (length left ≡ length right → left ≡ right)
unfolding diff_bytes
diff_bytes-zero diff [] [] h = (h, λ e. refl)
diff_bytes-zero diff (a ∷ left) [] h =
    let (both, rest) = diff_bytes-zero (bit_or diff (bit_xor a 0)) left [] h in
    let (here, byte) = bit_or-zero diff (bit_xor a 0) both in (here, λ e. absurd (omega (arith, e)))
diff_bytes-zero diff [] (b ∷ right) h =
    let (both, rest) = diff_bytes-zero (bit_or diff (bit_xor 0 b)) [] right h in
    let (here, byte) = bit_or-zero diff (bit_xor 0 b) both in (here, λ e. absurd (omega (arith, e)))
diff_bytes-zero diff (a ∷ left) (b ∷ right) h =
    let (both, rest) = diff_bytes-zero (bit_or diff (bit_xor a b)) left right h in
    let (here, byte) = bit_or-zero diff (bit_xor a b) both in
    let same = bit_xor-eq a b byte in (here, λ e. rw (same, rest (omega (arith, e))) refl)

diff_bytes_refl : (s : Bytes) → diff_bytes 0 s s ≡ 0
unfolding diff_bytes
diff_bytes_refl [] = refl
diff_bytes_refl (a ∷ s) =
    ap (λ n. diff_bytes n s s) (ap (bit_or 0) (bit_xor_refl a) ∙ bit_or_zero) ∙ diff_bytes_refl s

-- The comparison that takes the same time for any two texts of some lengths says whether they are the
-- same bytes.
pub constant_time_eq_iff :
    (left right : Bytes) → (constant_time_eq left right ≡ true) ↔ (left ≡ right)
unfolding constant_time_eq
constant_time_eq_iff left right = (
  λ h.
      let total : diff_bytes (bit_xor (length left) (length right)) left right ≡ 0 = ground arith in
      let (lengths, bytes) =
        diff_bytes-zero (bit_xor (length left) (length right)) left right total in
      bytes (bit_xor-eq (length left) (length right) lengths),
  λ e.
      subst (λ s. (diff_bytes (bit_xor (length left) (length s)) left s == 0) ≡ true) e (same left),
)
  where
    same : (s : Bytes) → (diff_bytes (bit_xor (length s) (length s)) s s == 0) ≡ true
    same s =
        let total : diff_bytes (bit_xor (length s) (length s)) s s ≡ 0 =
          ap (λ n. diff_bytes n s s) (bit_xor_refl (length s)) ∙ diff_bytes_refl s in
        rw total refl
