-- ===== src/A2a/Sse/Written.antt =====
-- Records as they are written to a stream of server-sent events.
use missive.Common.{
  ℕ, ◌+◌, Bool, true, not, ◌&&◌, Option, none, some, List, [], ◌∷◌, ◌++◌, is_empty, all, leb, ◌≡◌,
  refl, ap, arith,
}
use missive.Common.Str.{Str, lit, str_len}
use missive.Core.Error.{Result, ok, err, panic, hang, ◌>>=◌}
use missive.A2a.Sse.{SseRecord, max_sse_event_data_bytes, is_line_end, trim_line_end, join_lines}

-- A record, with its data in lines.
pub record SentRecord : Type 0 where
  pub event : Option Str
  pub lines : List Str

abbrev pub sent_record : SentRecord → SseRecord
sent_record r = record { event_type = r.event; record_data = join_lines r.lines }

abbrev pub is_text : Str → Bool
is_text = all (λ c. not (is_line_end c))

abbrev pub is_text_or_none : Option Str → Bool
is_text_or_none none = true
is_text_or_none (some s) = is_text s

unfoldable pub total_bytes : List Str → ℕ
total_bytes [] = 0
total_bytes (line ∷ rest) = str_len line + total_bytes rest

-- There is a line of data, no line holds a line end, and the lines are within the limit.
unfoldable pub is_sendable : SentRecord → Bool
is_sendable r =
    not (is_empty r.lines)
    && is_text_or_none r.event
    && all is_text r.lines
    && leb (total_bytes r.lines) max_sse_event_data_bytes

abbrev pub line_of : Str → Result Str
line_of s = ok (s ++ 10 ∷ [])

abbrev pub event_lines : Option Str → List (Result Str)
event_lines none = []
event_lines (some event) = line_of (lit "event: " ++ event) ∷ []

unfoldable pub data_lines_of : List Str → List (Result Str)
data_lines_of [] = []
data_lines_of (line ∷ rest) = line_of (lit "data: " ++ line) ∷ data_lines_of rest

unfoldable pub written : List SentRecord → List (Result Str)
written [] = []
written (r ∷ rs) = event_lines r.event ++ (data_lines_of r.lines ++ line_of [] ∷ written rs)

pub trim_line_end-text : (s : Str) → is_text s ≡ true → trim_line_end (s ++ 10 ∷ []) ≡ s
unfolding trim_line_end
trim_line_end-text [] h = refl
trim_line_end-text (c ∷ s) h = ground (arith, trim_line_end-text s)

pub >>=-pair {ℓ κ μ} :
    {A : Type ℓ} {S : Type κ} {B : Type μ} (m : Result S) (a : A) (k : A × S → Result B)
    → ((m >>= λ next. ok (a, next)) >>= k) ≡ (m >>= λ next. k (a, next))
>>=-pair (ok x) a k = refl
>>=-pair (err e) a k = refl
>>=-pair panic a k = refl
>>=-pair hang a k = refl

pub >>=-cong {ℓ} :
    {A B : Type ℓ} (m : Result A) (f g : A → Result B)
    → ((a : A) → f a ≡ g a)
    → (m >>= f) ≡ (m >>= g)
>>=-cong (ok x) f g same = same x
>>=-cong (err e) f g same = refl
>>=-cong panic f g same = refl
>>=-cong hang f g same = refl

pub append_nil {ℓ} : {A : Type ℓ} (xs : List A) → xs ++ [] ≡ xs
append_nil [] = refl
append_nil (x ∷ xs) = ap (◌∷◌ x) (append_nil xs)

pub append_cons {ℓ} :
    {A : Type ℓ} (xs : List A) (v : A) (vs : List A) → (xs ++ v ∷ []) ++ vs ≡ xs ++ v ∷ vs
append_cons [] v vs = refl
append_cons (x ∷ xs) v vs = ap (◌∷◌ x) (append_cons xs v vs)
