-- ===== src/Common/Places.antt =====
-- Places in lists: predicates over all of them, membership, and what searching and
-- filtering do to it.
use Prim.Native.Nat.{ℕ, zero, suc, ◌+◌, ◌<◌}
use mathlib.Core.Path.{◌≡◌, refl, ap, ap₂, subst}
use mathlib.Core.Logic.{inl, inr, ◌⊎◌}
use mathlib.Core.Bool.{Bool, true}
use mathlib.Core.List.{List, [], ◌∷◌, map}
use mathlib.Core.Option
use mathlib.Core.Option.{Option, none, some}
use native.Mathlib.Omega.{arith}
use missive.Common.Tests.{Bool-cases}
use missive.Common.Lists.{length, get_elem?, map_from, filter_by, position_from}

-- Every element satisfies the predicate.
abbrev pub All {ℓ κ} : {A : Type ℓ} → (A → Type κ) → List A → Type κ
All P [] = Unit
All P (x ∷ xs) = P x × All P xs

module _ {ℓ κ} {A : Type ℓ} {B : Type κ} where
  pub length-map : (xs : List A) (f : A → B) → length (map f xs) ≡ length xs
  length-map [] f = refl
  length-map (x ∷ xs) f = ap suc (length-map xs f)

  -- Over the places `j = k + i` of the list.
  pub All-map_from {μ} :
      (P : B → Type μ) (k : ℕ) (f : ℕ → A → B) (xs : List A)
      → ((i j : ℕ) (x : A) → j ≡ k + i → get_elem? xs i ≡ some x → P (f j x))
      → All P (map_from k f xs)
  All-map_from P k f [] h = tt
  All-map_from P k f (x ∷ xs) h = (
    h 0 k x (omega arith) refl,
    All-map_from P (suc k) f xs (λ i j y e g. h (suc i) j y (omega arith) g),
  )

  pub All-map {μ} :
      (P : B → Type μ) (f : A → B) (xs : List A)
      → ((i : ℕ) (x : A) → get_elem? xs i ≡ some x → P (f x))
      → All P (map f xs)
  All-map P f [] h = tt
  All-map P f (x ∷ xs) h = (h 0 x refl, All-map P f xs (λ i y g. h (suc i) y g))

  pub map_from-at :
      (k : ℕ) (f : ℕ → A → B) (xs : List A) (i : ℕ) {y : B}
      → get_elem? (map_from k f xs) i ≡ some y
      → (j : ℕ) × (x : A) × (j ≡ k + i) × (get_elem? xs i ≡ some x) × (y ≡ f j x)
  map_from-at k f [] i h = absurd (ground arith)
  map_from-at k f (x ∷ xs) zero h = (k, x, omega arith, refl, ground arith)
  map_from-at k f (x ∷ xs) (suc i) h =
      let (j, y, e, g, t) = map_from-at (suc k) f xs i h in (j, y, omega arith, g, t)

  pub get_elem?-map_from :
      (k : ℕ) (f : ℕ → A → B) (xs : List A) (i j : ℕ) {x : A}
      → j ≡ k + i
      → get_elem? xs i ≡ some x
      → get_elem? (map_from k f xs) i ≡ some (f j x)
  get_elem?-map_from k f [] i j e h = absurd (ground arith)
  get_elem?-map_from k f (y ∷ xs) zero j e h = let same : j ≡ k = omega arith in ground arith
  get_elem?-map_from k f (y ∷ xs) (suc i) j e h =
      get_elem?-map_from (suc k) f xs i j (omega arith) h

  pub map-map_from {μ} :
      {C : Type μ} (g : B → C) (g' : A → C) (k : ℕ) (f : ℕ → A → B) (xs : List A)
      → ((i : ℕ) (x : A) → g (f i x) ≡ g' x)
      → map g (map_from k f xs) ≡ map g' xs
  map-map_from g g' k f [] h = refl
  map-map_from g g' k f (x ∷ xs) h = ap₂ ◌∷◌ (h k x) (map-map_from g g' (suc k) f xs h)

  pub get_elem?-map :
      (f : A → B) (xs : List A) (i : ℕ) {x : A}
      → get_elem? xs i ≡ some x
      → get_elem? (map f xs) i ≡ some (f x)
  get_elem?-map f [] i h = ground arith
  get_elem?-map f (y ∷ xs) zero h = ap (Option.map f) h
  get_elem?-map f (y ∷ xs) (suc i) h = get_elem?-map f xs i h

module _ {ℓ} {A : Type ℓ} where
  pub get_elem?-lt : (xs : List A) (i : ℕ) {x : A} → get_elem? xs i ≡ some x → i < length xs
  get_elem?-lt [] i h = ground arith
  get_elem?-lt (y ∷ xs) zero h = omega arith
  get_elem?-lt (y ∷ xs) (suc i) h = omega (arith, get_elem?-lt xs i h)

  pub get_elem?-some : (xs : List A) (i : ℕ) → i < length xs → (x : A) × (get_elem? xs i ≡ some x)
  get_elem?-some [] i h = elim h [ ]
  get_elem?-some (y ∷ xs) zero h = (y, refl)
  get_elem?-some (y ∷ xs) (suc i) h = get_elem?-some xs i (omega arith)

  -- `position` gives a place that holds an element passing the test, and none if there is none.
  pub position_from_sound :
      (k : ℕ) (p : A → Bool) (xs : List A) {j : ℕ}
      → position_from k p xs ≡ some j
      → (i : ℕ) × (x : A) × (j ≡ k + i) × (get_elem? xs i ≡ some x) × (p x ≡ true)
  position_from_sound k p [] h = absurd (ground arith)
  position_from_sound k p (x ∷ xs) h = elim (Bool-cases (p x)) [
    | inl hit ↦ (0, x, ground arith, refl, hit)
    | inr miss ↦
        let (i, y, e, g, t) = position_from_sound (suc k) p xs (rw miss at h) in
        (suc i, y, omega arith, g, t)
  ]

  pub position_from_complete :
      (k : ℕ) (p : A → Bool) (xs : List A) (i : ℕ) (x : A)
      → get_elem? xs i ≡ some x
      → p x ≡ true
      → (j : ℕ) × (position_from k p xs ≡ some j)
  position_from_complete k p [] i x g t = absurd (ground arith)
  position_from_complete k p (y ∷ xs) zero x g t = (k, ground arith)
  position_from_complete k p (y ∷ xs) (suc i) x g t =
      let (j, e) = position_from_complete (suc k) p xs i x g t in
      elim (Bool-cases (p y)) [ inl hit ↦ (k, rw hit) | inr miss ↦ (j, rw miss e) ]

-- Membership with its place.
module _ {ℓ} {A : Type ℓ} where
  pub data In (x : A) (xs : List A) : Type ℓ where
    at : (i : ℕ) → get_elem? xs i ≡ some x → In x xs

  pub In-tail : {x y : A} {xs : List A} → In x xs → In x (y ∷ xs)
  In-tail (at i g) = at (suc i) g

  pub In-cons : (x y : A) (xs : List A) → In x (y ∷ xs) → (y ≡ x) ⊎ In x xs
  In-cons x y xs (at zero g) = inl (ground arith)
  In-cons x y xs (at (suc i) g) = inr (at i g)

  pub In-head : {x y : A} (xs : List A) → y ≡ x → In x (y ∷ xs)
  In-head xs e = at 0 (ap some e)

  pub position-In :
      (p : A → Bool) (x : A) (xs : List A)
      → In x xs
      → p x ≡ true
      → (j : ℕ) × (position_from 0 p xs ≡ some j)
  position-In p x xs (at i g) t = position_from_complete 0 p xs i x g t

  pub In-filter_by :
      (p : A → Bool) (x : A) (xs : List A) → p x ≡ true → In x xs → In x (filter_by p xs)
  In-filter_by p x [] t (at i g) = absurd (ground arith)
  In-filter_by p x (y ∷ xs) t m = elim (Bool-cases (p y)) [
    | inl keep ↦ elim (In-cons x y xs m) [
      | inl e ↦ rw keep (In-head _ e)
      | inr later ↦ rw keep (In-tail (In-filter_by p x xs t later))
    ]
    | inr drop ↦ elim (In-cons x y xs m) [
      | inl e ↦ absurd (ground arith)
      | inr later ↦ rw drop (In-filter_by p x xs t later)
    ]
  ]

  pub filter_by-In :
      (p : A → Bool) (x : A) (xs : List A) → In x (filter_by p xs) → In x xs × (p x ≡ true)
  filter_by-In p x [] (at i g) = absurd (ground arith)
  filter_by-In p x (y ∷ xs) m = elim (Bool-cases (p y)) [
    | inl keep ↦ elim (In-cons x y _ (rw keep at m)) [
      | inl e ↦ (In-head xs e, subst (λ z. p z ≡ true) e keep)
      | inr later ↦ let (a, b) = filter_by-In p x xs later in (In-tail a, b)
    ]
    | inr drop ↦ let (a, b) = filter_by-In p x xs (rw drop at m) in (In-tail a, b)
  ]
