-- ===== src/Cli/FileNames/Fresh.antt =====
-- crates/missive-cli/src/gather.rs: the loop over the suffixes finds a free name.
use missive.Common.{
  unwrap_or, ℕ, zero, suc, ◌+◌, ◌≤◌, ◌<◌, ◌≡◌, ◌≢◌, refl, sym, ap, ◌∙◌, subst, ◌⊎◌, inl, inr, true,
  false, not, ◌||◌, Option, none, some, [], ◌∷◌, ◌++◌, arith, length, Bool-cases, filter_by,
}
use missive.Common.Str.{Str, lit, str_eq, str_eq→eq}
use missive.Common.Set.{Set, contains, set_insert}
use missive.Common.Decimal.{show_decimal, read_onto, read_onto-show_decimal}
use missive.Core.Error.{Result, ok}
use missive.Cli.FileNames.{
  file_stem, path_extension, after_suffix, suffixed, first_free, unique_file_name,
}

abbrev others : Str → Set → Set
others x = filter_by (λ y. not (str_eq x y))

length-others-le : (x : Str) (s : Set) → length (others x s) ≤ length s
length-others-le x [] = omega arith
length-others-le x (y ∷ s) = ground (arith, length-others-le x s)

length-others : (x : Str) (s : Set) → contains s x ≡ true → length (others x s) < length s
length-others x [] h = absurd cc
length-others x (y ∷ s) h = ground (arith, length-others x s, length-others-le x s)

str_eq_differs : (x y : Str) → x ≢ y → str_eq x y ≡ false
str_eq_differs x y h = elim (Bool-cases (str_eq x y)) [
  | inl same ↦ absurd (h (str_eq→eq x y same))
  | inr differs ↦ differs
]

contains-others : (x y : Str) (s : Set) → x ≢ y → contains (others x s) y ≡ contains s y
contains-others x y [] h = refl
contains-others x y (z ∷ s) h = elim (Bool-cases (str_eq x z)) [
  | inl same ↦
      let away : str_eq y z ≡ false = str_eq_differs y z (λ e. h (str_eq→eq x z same ∙ sym e)) in
      rw same (rw away (contains-others x y s h))
  | inr differs ↦ rw differs (ap (◌||◌ (str_eq y z)) (contains-others x y s h))
]

module _ (candidate : ℕ → Str) (differs : (m n : ℕ) → m < n → candidate m ≢ candidate n) where
  -- Of more candidates than there are names one is free.
  free_candidate :
      (fuel n : ℕ) (used : Set)
      → length used < fuel
      → (k : ℕ) × (k < fuel) × (contains used (candidate (n + k)) ≡ false)
  free_candidate zero n used h = absurd (omega arith)
  free_candidate (suc fuel) n used h = elim (Bool-cases (contains used (candidate n))) [
    | inr free ↦
        (0, omega arith, subst (λ i. contains used (candidate i) ≡ false) (omega arith) free)
    | inl taken ↦
        let fewer = length-others (candidate n) used taken in
        let (k, below, free) =
          free_candidate fuel (suc n) (others (candidate n) used) (omega arith) in
        let away = differs n (suc n + k) (omega arith) in
        let there = sym (contains-others (candidate n) (candidate (suc n + k)) used away) ∙ free in
        (suc k, omega arith, subst (λ i. contains used (candidate i) ≡ false) (omega arith) there)
  ]

  abbrev Finds : Set → Result (Str × Set) → Type 0
  Finds used found =
      (i : ℕ) × (found ≡ ok (candidate i, set_insert (candidate i) used))
      × (contains used (candidate i) ≡ false)

  first_free-Finds :
      (fuel n k : ℕ) (used : Set)
      → k < fuel
      → contains used (candidate (n + k)) ≡ false
      → Finds used (first_free fuel candidate n used)
  unfolding first_free
  first_free-Finds zero n k used h free = absurd (omega arith)
  first_free-Finds (suc fuel) n zero used h free =
      let here : contains used (candidate n) ≡ false =
        subst (λ i. contains used (candidate i) ≡ false) (omega arith) free in
      rw here (n, refl, here)
  first_free-Finds (suc fuel) n (suc k) used h free =
      elim (Bool-cases (contains used (candidate n))) [
        | inr here ↦ rw here (n, refl, here)
        | inl taken ↦ rw taken (
            first_free-Finds fuel (suc n) k used (omega arith)
              (subst (λ i. contains used (candidate i) ≡ false) (omega arith) free))
      ]

-- A suffixed name tells its suffix, behind the stem and the dash.
drop : ℕ → Str → Str
drop zero s = s
drop (suc n) [] = []
drop (suc n) (c ∷ s) = drop n s

drop-append : (xs ys : Str) → drop (length xs) (xs ++ ys) ≡ ys
unfolding drop
drop-append [] ys = refl
drop-append (x ∷ xs) ys = drop-append xs ys

read_onto-after_suffix : (extension : Option Str) (n : ℕ) → read_onto n (after_suffix extension) ≡ n
unfolding read_onto
read_onto-after_suffix none n = refl
read_onto-after_suffix (some e) n = refl

suffix_of : Str → Str → ℕ
suffix_of stem name = elim (drop (length stem) name) [ [] ↦ 0 | c ∷ s ↦ read_onto 0 s ]

suffix_of-suffixed :
    (stem : Str) (extension : Option Str) (n : ℕ) → suffix_of stem (suffixed stem extension n) ≡ n
unfolding suffix_of suffixed
suffix_of-suffixed stem extension n =
    ap (λ s. elim s [ [] ↦ 0 | c ∷ s ↦ read_onto 0 s ])
      (drop-append stem (b'-' ∷ (show_decimal n ++ after_suffix extension)))
    ∙ read_onto-show_decimal n (after_suffix extension)
    ∙ read_onto-after_suffix extension n

suffixed-differs :
    (stem : Str) (extension : Option Str) (m n : ℕ)
    → m < n
    → suffixed stem extension m ≢ suffixed stem extension n
suffixed-differs stem extension m n h e =
    let same : m ≡ n =
      sym (suffix_of-suffixed stem extension m)
      ∙ ap (suffix_of stem) e
      ∙ suffix_of-suffixed stem extension n in
    absurd (omega arith)

-- The name of a file is the given one, or that with a suffix.
unfoldable pub IsNumbered : Str → Str → Type 0
IsNumbered base name =
    (name ≡ base)
    ⊎ ((n : ℕ) × (name
          ≡ suffixed (unwrap_or (file_stem base) (lit "artifact")) (path_extension base) n))

-- Whatever names are in use, the loop ends with a name that was not, the given one or one with a
-- suffix, and it is in use from then on.
pub unique_file_name-fresh :
    (base : Str) (used_names : Set)
    → (name : Str) × (unique_file_name base used_names ≡ ok (name, set_insert name used_names))
      × (contains used_names name ≡ false)
      × IsNumbered base name
unfolding unique_file_name IsNumbered
unique_file_name-fresh base used_names =
    let stem = unwrap_or (file_stem base) (lit "artifact") in
    let candidate = suffixed stem (path_extension base) in
    let differs = suffixed-differs stem (path_extension base) in
    elim (Bool-cases (contains used_names base)) [
      | inr free ↦ (base, rw free refl, free, inl refl)
      | inl taken ↦
          let (k, below, free) =
            free_candidate candidate differs (suc (length used_names)) 2 used_names (omega arith) in
          let (i, found, fresh) =
            first_free-Finds candidate differs (suc (length used_names)) 2 k used_names below
              free in
          (candidate i, rw taken found, fresh, inr (i, refl))
    ]
