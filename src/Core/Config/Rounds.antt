-- ===== src/Core/Config/Rounds.antt =====
-- The loop of `redact_after_auth_scheme` of crates/missive-core/src/config.rs.
use missive.Common.{
  ℕ, zero, suc, ◌≤◌, ◌<◌, Option, none, some, [], ◌∷◌, length, ◌≡◌, refl, arith, ◌∙◌, inl, inr,
  Option-cases,
}
use missive.Common.Str.{Str}
use missive.Core.Config.Redaction.{
  drop, find_ascii_case_insensitive, after_secret, redact_round, redact_on, needle_of,
  redact_after_auth_scheme,
}

drop_le : (n : ℕ) (s : Str) → length (drop n s) ≤ length s
drop_le zero s = omega arith
drop_le (suc n) [] = omega arith
drop_le (suc n) (c ∷ s) = omega (arith, drop_le n s)

after_secret_le : (s : Str) → length (after_secret s) ≤ length s
unfolding after_secret
after_secret_le [] = omega arith
after_secret_le (c ∷ s) = ground (arith, after_secret_le s)

needle_of-suc : (scheme : Str) → (n : ℕ) × (length (needle_of scheme) ≡ suc n)
needle_of-suc [] = (0, refl)
needle_of-suc (c ∷ s) = (length (needle_of s), refl)

found-shorter :
    (scheme s : Str) (before after : Str)
    → find_ascii_case_insensitive (needle_of scheme) s ≡ some (before, after)
    → length after < length s
unfolding find_ascii_case_insensitive
found-shorter scheme [] before after h = absurd cc
found-shorter scheme (c ∷ s) before after h =
    let (n, e) = needle_of-suc scheme in
    let here : length (drop (length (needle_of scheme)) (c ∷ s)) < suc (length s) =
      rw e (let le = drop_le n s in omega arith) in
    elim (Option-cases (find_ascii_case_insensitive (needle_of scheme) s)) [
      | inl missing ↦ ground arith
      | inr ((b, a), there) ↦ ground (arith, found-shorter scheme s b a)
    ]

redact_round-eq :
    (f g : Str → Str) (s : Str) (found : Option (Str × Str))
    → ((b a : Str) → found ≡ some (b, a) → f (after_secret a) ≡ g (after_secret a))
    → redact_round f s found ≡ redact_round g s found
redact_round-eq f g s none same = refl
redact_round-eq f g s (some (b, a)) same = rw (same b a refl) refl

redact_on-enough :
    (n m : ℕ) (scheme s : Str)
    → length s ≤ n
    → length s ≤ m
    → redact_on n (needle_of scheme) s ≡ redact_on m (needle_of scheme) s
unfolding redact_on find_ascii_case_insensitive
redact_on-enough zero zero scheme s h k = refl
redact_on-enough zero (suc m) scheme [] h k = refl
redact_on-enough zero (suc m) scheme (c ∷ s) h k = absurd (omega (arith, h))
redact_on-enough (suc n) zero scheme [] h k = refl
redact_on-enough (suc n) zero scheme (c ∷ s) h k = absurd (omega (arith, k))
redact_on-enough (suc n) (suc m) scheme s h k =
    redact_round-eq (redact_on n (needle_of scheme)) (redact_on m (needle_of scheme)) s
      (find_ascii_case_insensitive (needle_of scheme) s)
      (λ b a e.
        let less = found-shorter scheme s b a e in
        let le = after_secret_le a in
        redact_on-enough n m scheme (after_secret a) (omega arith) (omega arith))

redact_on-redact_round :
    (scheme s : Str)
    → redact_on (suc (length s)) (needle_of scheme) s
      ≡ redact_round
          (λ rest. redact_after_auth_scheme rest scheme)
          s
          (find_ascii_case_insensitive (needle_of scheme) s)
unfolding redact_on redact_after_auth_scheme
redact_on-redact_round scheme s =
    redact_round-eq (redact_on (length s) (needle_of scheme))
      (λ rest. redact_after_auth_scheme rest scheme) s
      (find_ascii_case_insensitive (needle_of scheme) s)
      (λ b a e.
        let less = found-shorter scheme s b a e in
        let le = after_secret_le a in
        redact_on-enough (length s) (length (after_secret a)) scheme (after_secret a) (omega arith)
          (omega arith))

-- `redact_after_auth_scheme` is its loop: as long as the scheme is found, the text up to it is kept
-- and the secret that follows is replaced; the length of the text bounds the rounds.
pub redact_after_auth_scheme-redact_round :
    (scheme s : Str)
    → redact_after_auth_scheme s scheme
      ≡ redact_round
          (λ rest. redact_after_auth_scheme rest scheme)
          s
          (find_ascii_case_insensitive (needle_of scheme) s)
unfolding redact_after_auth_scheme
redact_after_auth_scheme-redact_round scheme s =
    redact_on-enough (length s) (suc (length s)) scheme s (omega arith) (omega arith)
    ∙ redact_on-redact_round scheme s
