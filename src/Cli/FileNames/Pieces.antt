-- ===== src/Cli/FileNames/Pieces.antt =====
-- crates/missive-cli/src/artifact.rs and gather.rs: the names are of safe characters, and none is
-- empty or starts with a dot.
use missive.Common.{
  unwrap_or, and-split, and-join, ℕ, ◌≡◌, refl, sym, ap, ◌∙◌, subst, inl, inr, Bool, true, false,
  not, ◌&&◌, Option, none, some, List, [], ◌∷◌, ◌++◌, map, is_empty, any, arith, ◌==◌, Option-cases,
  if◌then◌else◌,
}
use missive.Common.Str.{Str, lit, str_eq, trim_matches}
use missive.Common.Decimal.{show_decimal, all-show_decimal}
use missive.Cli.FileNames.{
  Part, extension_for_mime, is_raw, is_text, payload_extension, after_separator, is_file_char,
  file_char, word_char, or_if_empty, rsplit_dot, path_file_name, file_stem, path_extension, stem_of,
  extension_of, is_none, sanitize_file_name, after_suffix, suffixed, sanitize_path_component,
}
use missive.Cli.FileNames.Characters.{
  leads, are_file_chars, is_safe_name, if-chars, all-append, leads-append, file_chars-map,
  word_chars-map, leads-map, trim-chars, trim-leads, leads-stand_in, leads-stand_ins,
  or_if_empty-chars,
}

pub sanitize_path_component-is_safe :
    (value : Str) → is_safe_name (sanitize_path_component value) ≡ true
unfolding sanitize_path_component
sanitize_path_component-is_safe value =
    let kept = trim_matches b'.' (map file_char value) in
    and-join (are_file_chars (or_if_empty kept (lit "member"))) _
      (or_if_empty-chars kept (lit "member")
        (trim-chars (map file_char value) (file_chars-map value)) refl)
      (leads-stand_in kept (lit "member") (trim-leads (map file_char value)) refl)

extension_for_mime-chars :
    (mime_type : Option Str) (fallback : Str)
    → are_file_chars fallback ≡ true
    → are_file_chars (unwrap_or (extension_for_mime mime_type) fallback) ≡ true
unfolding extension_for_mime
extension_for_mime-chars none fallback h = h
extension_for_mime-chars (some mime_type) fallback h = ground arith

pub payload_extension-chars :
    (parts : List Part) (mime_type : Option Str)
    → are_file_chars (payload_extension parts mime_type) ≡ true
unfolding payload_extension
payload_extension-chars parts mime_type =
    if-chars (any is_raw parts) _ _ (extension_for_mime-chars mime_type (lit "bin") refl) (
      if-chars (any is_text parts) _ (lit "json")
        (extension_for_mime-chars mime_type (lit "txt") refl) refl)

push-is_safe :
    (b : Bool) (name extension : Str)
    → is_safe_name name ≡ true
    → are_file_chars extension ≡ true
    → is_safe_name (if b then name ++ b'.' ∷ extension else name) ≡ true
push-is_safe false name extension h e = h
push-is_safe true name extension h e =
    let (chars, first) = and-split (are_file_chars name) _ h in
    and-join _ _ (all-append name (b'.' ∷ extension) ∙ rw (chars, e) refl)
      (leads-append name (b'.' ∷ extension) first)

pub sanitize_file_name-is_safe :
    (input fallback extension : Str)
    → are_file_chars extension ≡ true
    → is_safe_name (sanitize_file_name input fallback extension) ≡ true
unfolding sanitize_file_name
sanitize_file_name-is_safe input fallback extension h =
    let leaf = or_if_empty (unwrap_or (after_separator input) input) fallback in
    let kept = trim_matches b'.' (map file_char leaf) in
    let word = map word_char fallback in
    let name = or_if_empty (or_if_empty kept word) (lit "artifact") in
    push-is_safe (not (is_empty extension) && is_none (path_extension name)) name extension
      (and-join (are_file_chars name) (leads name)
        (or_if_empty-chars (or_if_empty kept word) (lit "artifact")
          (or_if_empty-chars kept word (trim-chars (map file_char leaf) (file_chars-map leaf))
            (word_chars-map fallback))
          refl)
        (leads-stand_ins kept word (lit "artifact") (trim-leads (map file_char leaf))
          (leads-map fallback (lit "artifact") refl)))
      h

-- The pieces around the last dot.
rsplit_dot-pieces :
    (s before after : Str) → rsplit_dot s ≡ some (before, after) → s ≡ before ++ b'.' ∷ after
unfolding rsplit_dot
rsplit_dot-pieces [] before after h = absurd cc
rsplit_dot-pieces (c ∷ s) before after h = elim (Option-cases (rsplit_dot s)) [
  | inl e ↦ ground arith
  | inr ((b, a), e) ↦
      let first : before ≡ c ∷ b = ground arith in
      let last : after ≡ a = ground arith in
      rw (first, last) (ap (◌∷◌ c) (rsplit_dot-pieces s b a e))
]

path_file_name-leads : (base : Str) → leads base ≡ true → path_file_name base ≡ some base
unfolding path_file_name str_eq
path_file_name-leads [] h = absurd cc
path_file_name-leads (c ∷ s) h = ground arith

pieces-are_safe :
    (base : Str) (cut : Option (Str × Str))
    → rsplit_dot base ≡ cut
    → is_safe_name base ≡ true
    → (is_safe_name (stem_of base cut) ≡ true)
      × (are_file_chars (after_suffix (extension_of cut)) ≡ true)
pieces-are_safe base none e h = (h, refl)
pieces-are_safe base (some ([], after)) e h = (h, refl)
pieces-are_safe base (some (c ∷ before, after)) e h =
    let whole = rsplit_dot-pieces base (c ∷ before) after e in
    let (chars, first) = and-split (are_file_chars base) _ h in
    let parts : (are_file_chars (c ∷ before) && are_file_chars (b'.' ∷ after)) ≡ true =
      sym (all-append (c ∷ before) (b'.' ∷ after)) ∙ ap are_file_chars (sym whole) ∙ chars in
    let (head_chars, tail_chars) = and-split (are_file_chars (c ∷ before)) _ parts in
    (
      and-join (are_file_chars (c ∷ before)) (not (c == b'.')) head_chars
          (ap leads (sym whole) ∙ first),
      tail_chars,
    )

-- A stem and what follows the suffix.
pub file_stem-is_safe :
    (base : Str)
    → is_safe_name base ≡ true
    → (is_safe_name (unwrap_or (file_stem base) (lit "artifact")) ≡ true)
      × (are_file_chars (after_suffix (path_extension base)) ≡ true)
unfolding file_stem path_extension
file_stem-is_safe base h =
    let named = path_file_name-leads base ((and-split (are_file_chars base) _ h).1) in
    subst
      (λ o.
        (is_safe_name (
            unwrap_or (elim o [ none ↦ none | some name ↦ some (stem_of name (rsplit_dot name)) ])
              (lit "artifact"))
          ≡ true)
        × (are_file_chars
              (after_suffix (elim o [ none ↦ none | some name ↦ extension_of (rsplit_dot name) ]))
            ≡ true))
      (sym named) (pieces-are_safe base (rsplit_dot base) refl h)

pub suffixed-is_safe :
    (stem : Str) (extension : Option Str) (n : ℕ)
    → is_safe_name stem ≡ true
    → are_file_chars (after_suffix extension) ≡ true
    → is_safe_name (suffixed stem extension n) ≡ true
unfolding suffixed
suffixed-is_safe stem extension n h e =
    let (chars, first) = and-split (are_file_chars stem) _ h in
    let digits : are_file_chars (show_decimal n) ≡ true =
      all-show_decimal is_file_char n (λ d h. ground arith) in
    let tail : are_file_chars (show_decimal n ++ after_suffix extension) ≡ true =
      all-append (show_decimal n) (after_suffix extension) ∙ rw (digits, e) refl in
    and-join _ _ (all-append stem _ ∙ rw (chars, tail) refl) (leads-append stem _ first)

pub is_safe_name-append :
    (prefix base : Str)
    → is_safe_name prefix ≡ true
    → is_safe_name base ≡ true
    → is_safe_name (prefix ++ b'-' ∷ base) ≡ true
is_safe_name-append prefix base g h =
    let (chars, first) = and-split (are_file_chars prefix) _ g in
    let (more, second) = and-split (are_file_chars base) _ h in
    and-join (are_file_chars (prefix ++ b'-' ∷ base)) _
      (all-append prefix (b'-' ∷ base) ∙ rw (chars, more) refl)
      (leads-append prefix (b'-' ∷ base) first)
