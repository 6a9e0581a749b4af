-- ===== src/Cli/FileNames/Characters.antt =====
-- crates/missive-cli/src/artifact.rs and gather.rs: what the replacement of characters and the trimming
-- of dots leave.
use missive.Common.{
  and-split, and-join, ℕ, ◌≡◌, refl, ap, ◌⊎◌, inl, inr, Bool, true, false, not, ◌&&◌, [], ◌∷◌, ◌++◌,
  map, is_empty, all, arith, ◌==◌, Bool-cases, if◌then◌else◌,
}
use missive.Common.Str.{Str, trim_matches, trim_start_matches, trim_end_matches}
use missive.Cli.FileNames.{is_word_char, is_file_char, file_char, word_char, or_if_empty}

-- The first character is there, and no dot.
abbrev pub leads : Str → Bool
leads [] = false
leads (c ∷ s) = not (c == b'.')

abbrev pub are_file_chars : Str → Bool
are_file_chars = all is_file_char

-- A name for a file in the directory, and for nothing else: it holds no separator, and it is not
-- empty, `.` or `..`.
abbrev pub is_safe_name : Str → Bool
is_safe_name s = are_file_chars s && leads s

pub if-chars :
    (b : Bool) (s t : Str)
    → are_file_chars s ≡ true
    → are_file_chars t ≡ true
    → are_file_chars (if b then s else t) ≡ true
if-chars true s t g h = g
if-chars false s t g h = h

pub word-no_dot : (c : ℕ) → is_word_char c ≡ true → not (c == b'.') ≡ true
word-no_dot c h = ground arith

pub all-append :
    (xs ys : Str) → are_file_chars (xs ++ ys) ≡ (are_file_chars xs && are_file_chars ys)
all-append [] ys = refl
all-append (x ∷ xs) ys = ground (arith, all-append xs ys)

pub leads-append : (xs ys : Str) → leads xs ≡ true → leads (xs ++ ys) ≡ true
leads-append [] ys h = absurd cc
leads-append (x ∷ xs) ys h = h

pub file_char-is_file_char : (c : ℕ) → is_file_char (file_char c) ≡ true
file_char-is_file_char c = elim (Bool-cases (is_file_char c)) [
  | inl yes' ↦ rw yes' yes'
  | inr no' ↦ rw no' refl
]

pub word_char-is_word_char : (c : ℕ) → is_word_char (word_char c) ≡ true
word_char-is_word_char c = elim (Bool-cases (is_word_char c)) [
  | inl yes' ↦ rw yes' yes'
  | inr no' ↦ rw no' refl
]

pub file_chars-map : (s : Str) → are_file_chars (map file_char s) ≡ true
file_chars-map [] = refl
file_chars-map (c ∷ s) = rw (file_char-is_file_char c) (file_chars-map s)

pub word_chars-map : (s : Str) → are_file_chars (map word_char s) ≡ true
word_chars-map [] = refl
word_chars-map (c ∷ s) = rw (word_char-is_word_char c) (word_chars-map s)

pub leads-map :
    (s fallback : Str)
    → leads fallback ≡ true
    → leads (or_if_empty (map word_char s) fallback) ≡ true
leads-map [] fallback h = h
leads-map (c ∷ s) fallback h = word-no_dot (word_char c) (word_char-is_word_char c)

pub trim_start_matches-chars :
    (s : Str) → are_file_chars s ≡ true → are_file_chars (trim_start_matches b'.' s) ≡ true
unfolding trim_start_matches
trim_start_matches-chars [] h = h
trim_start_matches-chars (c ∷ s) h =
    if-chars (c == b'.') _ (c ∷ s) (trim_start_matches-chars s (and-split (is_file_char c) _ h).1) h

pub trim_end_matches-chars :
    (s : Str) → are_file_chars s ≡ true → are_file_chars (trim_end_matches b'.' s) ≡ true
unfolding trim_end_matches
trim_end_matches-chars [] h = h
trim_end_matches-chars (c ∷ s) h =
    let (here, there) = and-split (is_file_char c) _ h in
    if-chars ((c == b'.') && is_empty (trim_end_matches b'.' s)) [] (c ∷ trim_end_matches b'.' s)
      refl (and-join (is_file_char c) _ here (trim_end_matches-chars s there))

pub leads-trim_end : (s : Str) → leads s ≡ true → leads (trim_end_matches b'.' s) ≡ true
unfolding trim_end_matches
leads-trim_end [] h = h
leads-trim_end (c ∷ s) h = ground arith

pub leads-trim_start :
    (s : Str) → (trim_start_matches b'.' s ≡ []) ⊎ (leads (trim_start_matches b'.' s) ≡ true)
unfolding trim_start_matches
leads-trim_start [] = inl refl
leads-trim_start (c ∷ s) = ground (arith, leads-trim_start s)

pub trim-chars : (s : Str) → are_file_chars s ≡ true → are_file_chars (trim_matches b'.' s) ≡ true
unfolding trim_matches
trim-chars s h = trim_end_matches-chars _ (trim_start_matches-chars s h)

pub leads-or_if_empty : (s fallback : Str) → leads s ≡ true → leads (or_if_empty s fallback) ≡ true
leads-or_if_empty [] fallback h = absurd cc
leads-or_if_empty (c ∷ s) fallback h = h

pub trim-leads : (s : Str) → (trim_matches b'.' s ≡ []) ⊎ (leads (trim_matches b'.' s) ≡ true)
unfolding trim_matches trim_end_matches
trim-leads s = elim (leads-trim_start s) [
  | inl none_left ↦ inl (ap (trim_end_matches b'.') none_left)
  | inr first ↦ inr (leads-trim_end (trim_start_matches b'.' s) first)
]

-- What stands in for a text of dots only.
pub leads-stand_in :
    (s fallback : Str)
    → (s ≡ []) ⊎ (leads s ≡ true)
    → leads fallback ≡ true
    → leads (or_if_empty s fallback) ≡ true
leads-stand_in s fallback (inl e) h = rw e h
leads-stand_in s fallback (inr first) h = leads-or_if_empty s fallback first

pub leads-stand_ins :
    (s word last : Str)
    → (s ≡ []) ⊎ (leads s ≡ true)
    → leads (or_if_empty word last) ≡ true
    → leads (or_if_empty (or_if_empty s word) last) ≡ true
leads-stand_ins s word last (inl e) h = rw e h
leads-stand_ins s word last (inr first) h =
    leads-or_if_empty (or_if_empty s word) last (leads-or_if_empty s word first)

pub or_if_empty-chars :
    (s fallback : Str)
    → are_file_chars s ≡ true
    → are_file_chars fallback ≡ true
    → are_file_chars (or_if_empty s fallback) ≡ true
or_if_empty-chars [] fallback g h = h
or_if_empty-chars (c ∷ s) fallback g h = g
