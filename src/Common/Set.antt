-- ===== src/Common/Set.antt =====
-- `BTreeSet<String>` as the list of its elements in order.
use missive.Common.{Bool, ◌||◌, List, [], ◌∷◌, Ordering, any, all, ◌≡◌, refl, arith}
use missive.Common.Str.{Str, str_eq, str_cmp, str_cmp-eq}

abbrev pub Set : Type 0
Set = List Str

abbrev pub contains : Set → Str → Bool
contains s x = any (str_eq x) s

unfoldable pub set_insert : Str → Set → Set
set_insert x [] = x ∷ []
set_insert x (y ∷ s) =
    let later = y ∷ set_insert x s in
    elim (str_cmp x y) [ Ordering.lt ↦ x ∷ y ∷ s | Ordering.eq ↦ y ∷ s | Ordering.gt ↦ later ]

-- `iter().collect()`.
unfoldable pub collect_set : List Str → Set
collect_set [] = []
collect_set (x ∷ xs) = set_insert x (collect_set xs)

unfoldable pub is_subset : Set → Set → Bool
is_subset s t = all (contains t) s

pub contains-set_insert :
    (x y : Str) (s : Set) → contains (set_insert x s) y ≡ (str_eq y x || contains s y)
unfolding set_insert
contains-set_insert x y [] = refl
contains-set_insert x y (z ∷ s) = ground (arith, contains-set_insert x y s, str_cmp-eq x z)

pub contains-collect_set : (xs : List Str) (y : Str) → contains (collect_set xs) y ≡ contains xs y
unfolding collect_set
contains-collect_set [] y = refl
contains-collect_set (x ∷ xs) y =
    ground (arith, contains-set_insert x y (collect_set xs), contains-collect_set xs y)
