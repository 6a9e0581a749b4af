-- ===== src/Common/Str.antt =====
-- Rust's `String` and `str` as lists of Unicode scalar values, with the operations of the standard
-- library that the source calls on them.
use Prim.Native.Nat.{ℕ, ◌+◌, compare, Ordering}
use Prim.Native.Char.{code}
use Prim.Native.String.{String}
use mathlib.Core.Path.{◌≡◌, refl}
use mathlib.Core.Bool.{Bool, true, false, ◌&&◌, ◌||◌}
use mathlib.Core.List.{List, [], ◌∷◌, map, reverse}
use native.Mathlib.Omega.{arith}
use missive.Common.Lists.{is_empty}
use missive.Common.Tests.{leb, ltb, ◌==◌, if◌then◌else◌}

abbrev pub Str : Type 0
Str = List ℕ

-- A literal of the source.
abbrev pub lit : String → Str
lit String.[] = []
lit (String.◌∷◌ c s) = code c ∷ lit s

unfoldable pub str_eq : Str → Str → Bool
str_eq [] [] = true
str_eq [] (b ∷ bs) = false
str_eq (a ∷ as') [] = false
str_eq (a ∷ as') (b ∷ bs) = (a == b) && str_eq as' bs

pub str_eq→eq : (s t : Str) → str_eq s t ≡ true → s ≡ t
unfolding str_eq
str_eq→eq [] [] h = refl
str_eq→eq [] (b ∷ bs) h = ground arith
str_eq→eq (a ∷ as') [] h = ground arith
str_eq→eq (a ∷ as') (b ∷ bs) h = ground (arith, str_eq→eq as' bs)

pub str_eq_refl : (s : Str) → str_eq s s ≡ true
unfolding str_eq
str_eq_refl [] = refl
str_eq_refl (a ∷ as') = ground (arith, str_eq_refl as')

-- `str::cmp`: by bytes of UTF-8, which is the order of the scalar values.
unfoldable pub str_cmp : Str → Str → Ordering
str_cmp [] [] = Ordering.eq
str_cmp [] (b ∷ bs) = Ordering.lt
str_cmp (a ∷ as') [] = Ordering.gt
str_cmp (a ∷ as') (b ∷ bs) =
    let rest = str_cmp as' bs in
    elim (compare a b) [
      | Ordering.lt ↦ Ordering.lt
      | Ordering.eq ↦ rest
      | Ordering.gt ↦ Ordering.gt
    ]

-- `char::len_utf8` and `str::len`.
abbrev pub len_utf8 : ℕ → ℕ
len_utf8 c = if ltb c 0x80 then 1 else if ltb c 0x800 then 2 else if ltb c 0x10000 then 3 else 4

unfoldable pub str_len : Str → ℕ
str_len [] = 0
str_len (c ∷ s) = len_utf8 c + str_len s

-- `char::is_whitespace`: the property White_Space.
unfoldable pub is_whitespace : ℕ → Bool
is_whitespace c =
    (leb 9 c && leb c 13)
    || (c == 32)
    || (c == 0x85)
    || (c == 0xA0)
    || (c == 0x1680)
    || (leb 0x2000 c && leb c 0x200A)
    || (c == 0x2028)
    || (c == 0x2029)
    || (c == 0x202F)
    || (c == 0x205F)
    || (c == 0x3000)

-- `char::is_control`: the general category Cc.
unfoldable pub is_control : ℕ → Bool
is_control c = ltb c 0x20 || (leb 0x7F c && leb c 0x9F)

unfoldable pub is_ascii_lowercase : ℕ → Bool
is_ascii_lowercase c = leb b'a' c && leb c b'z'

abbrev pub is_ascii_alphabetic : ℕ → Bool
is_ascii_alphabetic c = (leb b'A' c && leb c b'Z') || (leb b'a' c && leb c b'z')

unfoldable pub is_ascii_alphanumeric : ℕ → Bool
is_ascii_alphanumeric c =
    (leb b'0' c && leb c b'9') || (leb b'A' c && leb c b'Z') || (leb b'a' c && leb c b'z')

unfoldable pub to_ascii_lowercase_char : ℕ → ℕ
to_ascii_lowercase_char c = if leb b'A' c && leb c b'Z' then c + 32 else c

unfoldable pub to_ascii_lowercase : Str → Str
to_ascii_lowercase = map to_ascii_lowercase_char

-- `str::trim_start`, `str::trim_end`, `str::trim`.
unfoldable pub trim_start : Str → Str
trim_start [] = []
trim_start (c ∷ s) = let rest = trim_start s in if is_whitespace c then rest else c ∷ s

unfoldable pub trim_end : Str → Str
trim_end s = reverse (trim_start (reverse s))

unfoldable pub trim : Str → Str
unfolding trim_start trim_end is_whitespace
trim s = trim_end (trim_start s)

pub str_cmp-eq : (s t : Str) → str_cmp s t ≡ Ordering.eq → s ≡ t
unfolding str_cmp
str_cmp-eq [] [] h = refl
str_cmp-eq [] (b ∷ bs) h = ground arith
str_cmp-eq (a ∷ as') [] h = ground arith
str_cmp-eq (a ∷ as') (b ∷ bs) h = ground (arith, str_cmp-eq as' bs)

-- `str::starts_with` and `str::ends_with`.
unfoldable pub starts_with : Str → Str → Bool
starts_with s [] = true
starts_with [] (b ∷ bs) = false
starts_with (a ∷ as') (b ∷ bs) = (a == b) && starts_with as' bs

unfoldable pub ends_with : Str → Str → Bool
ends_with [] suffix = str_eq [] suffix
ends_with (c ∷ s) suffix = str_eq (c ∷ s) suffix || ends_with s suffix

-- `trim_start_matches(c)`, `trim_end_matches(c)` and `trim_matches(c)` for one character.
unfoldable pub trim_start_matches : ℕ → Str → Str
trim_start_matches c [] = []
trim_start_matches c (x ∷ s) = let rest = trim_start_matches c s in if x == c then rest else x ∷ s

unfoldable pub trim_end_matches : ℕ → Str → Str
trim_end_matches c [] = []
trim_end_matches c (x ∷ s) =
    let rest = trim_end_matches c s in if (x == c) && is_empty rest then [] else x ∷ rest

unfoldable pub trim_matches : ℕ → Str → Str
trim_matches c s = trim_end_matches c (trim_start_matches c s)

abbrev pub flip : Ordering → Ordering
flip Ordering.lt = Ordering.gt
flip Ordering.eq = Ordering.eq
flip Ordering.gt = Ordering.lt

pub str_cmp-flip : (s t : Str) → str_cmp t s ≡ flip (str_cmp s t)
unfolding str_cmp
str_cmp-flip [] [] = refl
str_cmp-flip [] (b ∷ bs) = refl
str_cmp-flip (a ∷ as') [] = refl
str_cmp-flip (a ∷ as') (b ∷ bs) = ground (arith, str_cmp-flip as' bs)

pub str_cmp_refl : (s : Str) → str_cmp s s ≡ Ordering.eq
unfolding str_cmp
str_cmp_refl [] = refl
str_cmp_refl (a ∷ as') = ground (arith, str_cmp_refl as')

pub str_cmp_trans :
    (s t u : Str)
    → str_cmp s t ≡ Ordering.lt
    → str_cmp t u ≡ Ordering.lt
    → str_cmp s u ≡ Ordering.lt
unfolding str_cmp
str_cmp_trans [] [] u g h = absurd cc
str_cmp_trans [] (b ∷ bs) [] g h = absurd cc
str_cmp_trans [] (b ∷ bs) (c ∷ cs) g h = refl
str_cmp_trans (a ∷ as') [] u g h = absurd cc
str_cmp_trans (a ∷ as') (b ∷ bs) [] g h = absurd cc
str_cmp_trans (a ∷ as') (b ∷ bs) (c ∷ cs) g h = ground (arith, str_cmp_trans as' bs cs)
