-- ===== src/Common/Decimal.antt =====
-- A number printed in decimal, and read back.
use missive.Common.{
  Option, none, some, not, is_empty, ℕ, zero, suc, ◌+◌, ◌-◌, ◌*◌, ◌/◌, ◌%◌, ◌<◌, ◌==◌, Bool, true,
  ◌&&◌, [], ◌∷◌, ◌++◌, leb, ltb, if◌then◌else◌, ◌≡◌, refl, ap, ◌∙◌, arith, all,
}
use missive.Common.Str.{Str}

abbrev pub is_digit : ℕ → Bool
is_digit c = leb b'0' c && leb c b'9'

abbrev pub u64_max : ℕ
u64_max = 18446744073709551615

-- `parse::<u64>`: digits, which a plus sign may precede, of a number in range.
unfoldable pub digits_value : ℕ → Str → ℕ
digits_value n [] = n
digits_value n (c ∷ s) = digits_value (n * 10 + (c - b'0')) s

abbrev pub without_plus : Str → Str
without_plus [] = []
without_plus (c ∷ s) = if c == b'+' then s else c ∷ s

unfoldable pub parse_u64 : Str → Option ℕ
parse_u64 s =
    let digits = without_plus s in
    if not (is_empty digits) && all is_digit digits && leb (digits_value 0 digits) u64_max
    then some (digits_value 0 digits)
    else none

-- The digits of a number before a text; more fuel than the number is enough.
unfoldable pub digits_onto : ℕ → ℕ → Str → Str
digits_onto zero n tail = tail
digits_onto (suc fuel) n tail =
    let more = digits_onto fuel (n / 10) ((b'0' + n % 10) ∷ tail) in
    if ltb n 10 then (b'0' + n) ∷ tail else more

-- `n.to_string()`.
unfoldable pub show_decimal : ℕ → Str
show_decimal n = digits_onto (suc n) n []

-- The number that the digits at the front tell, after those read so far.
unfoldable pub read_onto : ℕ → Str → ℕ
read_onto n [] = n
read_onto n (c ∷ s) = let more = read_onto (n * 10 + (c - b'0')) s in if is_digit c then more else n

read_onto-digit :
    (n d m : ℕ) (tail : Str)
    → d < 10
    → m ≡ n * 10 + d
    → read_onto n ((b'0' + d) ∷ tail) ≡ read_onto m tail
unfolding read_onto
read_onto-digit n d m tail h e =
    let digit : is_digit (b'0' + d) ≡ true = ground arith in
    let same : n * 10 + (b'0' + d - b'0') ≡ m = omega arith in
    rw digit (ap (λ k. read_onto k tail) same)

read_onto-digits_onto :
    (fuel n : ℕ) (tail : Str) → n < fuel → read_onto 0 (digits_onto fuel n tail) ≡ read_onto n tail
unfolding digits_onto
read_onto-digits_onto zero n tail h = absurd (omega arith)
read_onto-digits_onto (suc fuel) n tail h = ground (
  arith,
  read_onto-digit 0 n n tail,
  read_onto-digits_onto fuel (n / 10) ((b'0' + n % 10) ∷ tail),
  read_onto-digit (n / 10) (n % 10) n tail,
)

digits_onto-append :
    (fuel n : ℕ) (tail more : Str)
    → digits_onto fuel n tail ++ more ≡ digits_onto fuel n (tail ++ more)
unfolding digits_onto
digits_onto-append zero n tail more = refl
digits_onto-append (suc fuel) n tail more =
    ground (arith, digits_onto-append fuel (n / 10) ((b'0' + n % 10) ∷ tail) more)

-- What stands before a text that does not go on with a digit can be read back.
pub read_onto-show_decimal :
    (n : ℕ) (tail : Str) → read_onto 0 (show_decimal n ++ tail) ≡ read_onto n tail
unfolding show_decimal
read_onto-show_decimal n tail =
    ap (read_onto 0) (digits_onto-append (suc n) n [] tail)
    ∙ read_onto-digits_onto (suc n) n tail (omega arith)

all-digits_onto :
    (p : ℕ → Bool) (fuel n : ℕ) (tail : Str)
    → ((d : ℕ) → d < 10 → p (b'0' + d) ≡ true)
    → all p tail ≡ true
    → all p (digits_onto fuel n tail) ≡ true
unfolding digits_onto
all-digits_onto p zero n tail h t = t
all-digits_onto p (suc fuel) n tail h t =
    ground (arith, h n, h (n % 10), all-digits_onto p fuel (n / 10) ((b'0' + n % 10) ∷ tail) h)

pub all-show_decimal :
    (p : ℕ → Bool) (n : ℕ)
    → ((d : ℕ) → d < 10 → p (b'0' + d) ≡ true)
    → all p (show_decimal n) ≡ true
unfolding show_decimal
all-show_decimal p n h = all-digits_onto p (suc n) n [] h refl
