-- ===== src/Common/Lists.antt =====
-- Lists measured and indexed by the native numbers, and the iterator adaptors of the source.
use Prim.Native.Nat.{ℕ, zero, suc, ◌+◌, ◌≤◌, Ordering}
use mathlib.Core.Path.{◌≡◌, refl, ap}
use mathlib.Core.Bool.{Bool, true, false, ◌&&◌, ◌||◌}
use mathlib.Core.List.{List, [], ◌∷◌, ◌++◌}
use mathlib.Core.Option.{Option, none, some}
use native.Mathlib.Omega.{arith}
use missive.Common.Tests.{if◌then◌else◌}

-- `Ordering::is_gt`.
abbrev pub is_gt : Ordering → Bool
is_gt Ordering.gt = true
is_gt _ = false

module _ {ℓ} {A : Type ℓ} where
  abbrev pub length : List A → ℕ
  length [] = 0
  length (x ∷ xs) = suc (length xs)

  abbrev pub is_empty : List A → Bool
  is_empty [] = true
  is_empty (x ∷ xs) = false

  abbrev pub get_elem? : List A → ℕ → Option A
  get_elem? [] i = none
  get_elem? (x ∷ xs) zero = some x
  get_elem? (x ∷ xs) (suc i) = get_elem? xs i

  pub length-append : (xs ys : List A) → length (xs ++ ys) ≡ length xs + length ys
  length-append [] ys = omega arith
  length-append (x ∷ xs) ys = omega (arith, length-append xs ys)

  -- `iter().filter(p)`, `any`, `all`, `filter(p).count()`.
  abbrev pub filter_by : (A → Bool) → List A → List A
  filter_by p [] = []
  filter_by p (x ∷ xs) = let rest = filter_by p xs in if p x then x ∷ rest else rest

  abbrev pub any : (A → Bool) → List A → Bool
  any p [] = false
  any p (x ∷ xs) = p x || any p xs

  abbrev pub all : (A → Bool) → List A → Bool
  all p [] = true
  all p (x ∷ xs) = p x && all p xs

  abbrev pub count_by : (A → Bool) → List A → ℕ
  count_by p [] = 0
  count_by p (x ∷ xs) = let rest = count_by p xs in if p x then suc rest else rest

  pub count_by-le-length : (p : A → Bool) (xs : List A) → count_by p xs ≤ length xs
  count_by-le-length p [] = omega arith
  count_by-le-length p (x ∷ xs) = ground (arith, count_by-le-length p xs)

  -- `iter().position(p)`: the least index at which the test holds.
  abbrev pub position_from : ℕ → (A → Bool) → List A → Option ℕ
  position_from i p [] = none
  position_from i p (x ∷ xs) = let rest = position_from (suc i) p xs in if p x then some i else rest

  abbrev pub position : (A → Bool) → List A → Option ℕ
  position = position_from 0

  -- `max_by`: of several greatest elements the last.
  abbrev pub max_by_from : (A → A → Ordering) → A → List A → A
  max_by_from cmp best [] = best
  max_by_from cmp best (x ∷ xs) = max_by_from cmp (if is_gt (cmp best x) then best else x) xs

  abbrev pub max_by : (A → A → Ordering) → List A → Option A
  max_by cmp [] = none
  max_by cmp (x ∷ xs) = some (max_by_from cmp x xs)

  -- `sort_by`, a stable sort, by insertion.
  abbrev pub insert_by : (A → A → Ordering) → A → List A → List A
  insert_by cmp x [] = x ∷ []
  insert_by cmp x (y ∷ ys) =
      let later = y ∷ insert_by cmp x ys in if is_gt (cmp x y) then later else x ∷ y ∷ ys

  abbrev pub sort_by : (A → A → Ordering) → List A → List A
  sort_by cmp [] = []
  sort_by cmp (x ∷ xs) = insert_by cmp x (sort_by cmp xs)

module _ {ℓ κ} {A : Type ℓ} {B : Type κ} where
  -- `iter().enumerate().map(f)`, with the index of the first element.
  abbrev pub map_from : ℕ → (ℕ → A → B) → List A → List B
  map_from i f [] = []
  map_from i f (x ∷ xs) = f i x ∷ map_from (suc i) f xs

  pub length-map_from : (i : ℕ) (f : ℕ → A → B) (xs : List A) → length (map_from i f xs) ≡ length xs
  length-map_from i f [] = refl
  length-map_from i f (x ∷ xs) = ap suc (length-map_from (suc i) f xs)

  abbrev pub filter_map_by : (A → Option B) → List A → List B
  filter_map_by f [] = []
  filter_map_by f (x ∷ xs) =
      let rest = filter_map_by f xs in elim (f x) [ none ↦ rest | some y ↦ y ∷ rest ]
