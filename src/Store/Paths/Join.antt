-- ===== src/Store/Paths/Join.antt =====
-- `Path::join` on Unix, as the standard library documents it: an absolute argument replaces the base,
-- and otherwise a separator stands between them unless the base is empty or ends with one.
use missive.Common.{
  ℕ, Bool, true, false, not, ◌||◌, [], ◌∷◌, ◌++◌, all, length, length-append, ◌≡◌, refl, ap, sym,
  ◌<◌, ◌∙◌, arith, ◌==◌, if◌then◌else◌,
}
use missive.Common.Str.{Str}
use missive.Core.Error.{ok}
use missive.Core.Ids.{is_ascii_lower_alphanumeric, is_named_separator}
use missive.Store.Paths.{PathOps, Component, validate_profile_segment}
use missive.Store.Paths.Isolation.{IsJoin}

abbrev pub is_rooted : Str → Bool
is_rooted [] = false
is_rooted (c ∷ s) = c == b'/'

abbrev is_slash_last : Str → Bool
is_slash_last [] = false
is_slash_last (c ∷ []) = c == b'/'
is_slash_last (c ∷ d ∷ s) = is_slash_last (d ∷ s)

-- The base with the separator behind it.
abbrev pub as_base : Str → Str
as_base [] = []
as_base (c ∷ s) = if is_slash_last (c ∷ s) then c ∷ s else c ∷ s ++ b'/' ∷ []

abbrev pub join : Str → Str → Str
join p q = if is_rooted q then q else as_base p ++ q

-- A relative path is taken as one component.
abbrev pub unix : PathOps
unix = record { is_absolute = is_rooted; join = join; components = λ p. Component.normal p ∷ [] }

cancel_left : (p a b : Str) → p ++ a ≡ p ++ b → a ≡ b
cancel_left [] a b h = h
cancel_left (c ∷ p) a b h = cancel_left p a b (tail-eq h)
  where
    tail-eq : {x y : ℕ} {s t : Str} → x ∷ s ≡ y ∷ t → s ≡ t
    tail-eq e = cc

cancel_right : (p q t : Str) → p ++ t ≡ q ++ t → p ≡ q
cancel_right [] [] t h = refl
cancel_right [] (d ∷ q) t h =
    let n = ap length h in let m = length-append q t in absurd (omega arith)
cancel_right (c ∷ p) [] t h =
    let n = ap length h in let m = length-append p t in absurd (omega arith)
cancel_right (c ∷ p) (d ∷ q) t h = ground (arith, cancel_right p q t)

-- A segment has a first byte, and none of its bytes is the separator.
abbrev is_segment : Str → Bool
is_segment [] = false
is_segment (c ∷ s) = all (λ d. not (d == b'/')) (c ∷ s)

no_slash :
    (s : Str)
    → all (λ c. is_ascii_lower_alphanumeric c || is_named_separator c) s ≡ true
    → all (λ d. not (d == b'/')) s ≡ true
no_slash [] h = refl
no_slash (c ∷ s) h = ground (arith, no_slash s)

validate-is_segment : (a : Str) → validate_profile_segment a ≡ ok tt → is_segment a ≡ true
unfolding validate_profile_segment
validate-is_segment [] h = absurd cc
validate-is_segment (c ∷ s) h = no_slash (c ∷ s) (ground arith)

join-segment : (p a : Str) → is_segment a ≡ true → join p a ≡ as_base p ++ a
join-segment p [] h = absurd cc
join-segment p (c ∷ s) h = ground arith

is_slash_last-append :
    (p : Str) (c : ℕ) (s : Str)
    → all (λ d. not (d == b'/')) (c ∷ s) ≡ true
    → is_slash_last (p ++ c ∷ s) ≡ false
is_slash_last-append [] c [] h = ground arith
is_slash_last-append [] c (d ∷ s) h = is_slash_last-append [] d s (ground arith)
is_slash_last-append (x ∷ []) c s h = is_slash_last-append [] c s h
is_slash_last-append (x ∷ y ∷ p) c s h = is_slash_last-append (y ∷ p) c s h

as_base-lem : (t : Str) → is_slash_last t ≡ false → 0 < length t → as_base t ≡ t ++ b'/' ∷ []
as_base-lem [] h pos = absurd (omega arith)
as_base-lem (c ∷ s) h pos = ground arith

as_base-join :
    (p a : Str) → is_segment a ≡ true → as_base (join p a) ≡ (as_base p ++ a) ++ b'/' ∷ []
as_base-join p [] h = absurd cc
as_base-join p (c ∷ s) h = rw (join-segment p (c ∷ s) h) (
    as_base-lem (as_base p ++ c ∷ s) (is_slash_last-append (as_base p) c s h)
      (omega (arith, length-append (as_base p) (c ∷ s))))

pub unix-IsJoin : IsJoin unix
unix-IsJoin = record {
  same_name = λ p a b h g e. cancel_left (as_base p) a b (
      sym (join-segment p a (validate-is_segment a h))
      ∙ e
      ∙ join-segment p b (validate-is_segment b g));
  same_parent = λ p a b name h g n e.
      let x = validate-is_segment a h in
      let y = validate-is_segment b g in
      let z = validate-is_segment name n in
      let same : as_base (join p a) ++ name ≡ as_base (join p b) ++ name =
        sym (join-segment (join p a) name z) ∙ e ∙ join-segment (join p b) name z in
      let bases : as_base (join p a) ≡ as_base (join p b) = cancel_right _ _ name same in
      cancel_left (as_base p) a b (
        cancel_right (as_base p ++ a) (as_base p ++ b) (b'/' ∷ [])
          (sym (as_base-join p a x) ∙ bases ∙ as_base-join p b y));
}
