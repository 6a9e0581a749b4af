-- ===== src/Common/Sorting.antt =====
-- What sorting does to a list, and the greatest element.
use Prim.Native.Nat.{suc, Ordering}
use mathlib.Core.Path.{◌≡◌, refl, subst}
use mathlib.Core.Logic.{inl, inr}
use mathlib.Core.Bool.{true, false}
use mathlib.Core.List.{List, [], ◌∷◌}
use mathlib.Core.Option.{some}
use native.Mathlib.Omega.{arith}
use missive.Common.Tests.{Bool-cases}
use missive.Common.Lists.{length, insert_by, sort_by, is_gt, max_by_from, max_by}
use missive.Common.Places.{In, at, In-tail, In-cons, In-head}

module _ {ℓ} {A : Type ℓ} where
  pub In-insert_by :
      (cmp : A → A → Ordering) (x y : A) (xs : List A) → In x (y ∷ xs) → In x (insert_by cmp y xs)
  In-insert_by cmp x y [] m = m
  In-insert_by cmp x y (z ∷ xs) m = elim (Bool-cases (is_gt (cmp y z))) [
    | inl after ↦ rw after (elim (In-cons x y _ m) [
      | inl e ↦ In-tail (In-insert_by cmp x y xs (In-head xs e))
      | inr later ↦ elim (In-cons x z xs later) [
        | inl e ↦ In-head _ e
        | inr deep ↦ In-tail (In-insert_by cmp x y xs (In-tail deep))
      ]
    ])
    | inr before ↦ rw before m
  ]

  pub insert_by-In :
      (cmp : A → A → Ordering) (x y : A) (xs : List A) → In x (insert_by cmp y xs) → In x (y ∷ xs)
  insert_by-In cmp x y [] m = m
  insert_by-In cmp x y (z ∷ xs) m = elim (Bool-cases (is_gt (cmp y z))) [
    | inl after ↦ elim (In-cons x z _ (rw after at m)) [
      | inl e ↦ In-tail (In-head xs e)
      | inr later ↦ elim (In-cons x y xs (insert_by-In cmp x y xs later)) [
        | inl e ↦ In-head _ e
        | inr deep ↦ In-tail (In-tail deep)
      ]
    ]
    | inr before ↦ rw before at m
  ]

  pub In-sort_by : (cmp : A → A → Ordering) (x : A) (xs : List A) → In x xs → In x (sort_by cmp xs)
  In-sort_by cmp x [] m = m
  In-sort_by cmp x (y ∷ xs) m = In-insert_by cmp x y _ (elim (In-cons x y xs m) [
    | inl e ↦ In-head _ e
    | inr later ↦ In-tail (In-sort_by cmp x xs later)
  ])

  pub sort_by-In : (cmp : A → A → Ordering) (x : A) (xs : List A) → In x (sort_by cmp xs) → In x xs
  sort_by-In cmp x [] m = m
  sort_by-In cmp x (y ∷ xs) m = elim (In-cons x y _ (insert_by-In cmp x y _ m)) [
    | inl e ↦ In-head _ e
    | inr later ↦ In-tail (sort_by-In cmp x xs later)
  ]

  length-insert_by :
      (cmp : A → A → Ordering) (x : A) (xs : List A) → length (insert_by cmp x xs) ≡ suc (length xs)
  length-insert_by cmp x [] = refl
  length-insert_by cmp x (y ∷ xs) = ground (arith, length-insert_by cmp x xs)

  pub length-sort_by : (cmp : A → A → Ordering) (xs : List A) → length (sort_by cmp xs) ≡ length xs
  length-sort_by cmp [] = refl
  length-sort_by cmp (x ∷ xs) =
      omega (arith, length-insert_by cmp x (sort_by cmp xs), length-sort_by cmp xs)

  -- Neighbours are not in the wrong order.
  abbrev pub IsSorted : (A → A → Ordering) → List A → Type 0
  IsSorted cmp [] = Unit
  IsSorted cmp (x ∷ []) = Unit
  IsSorted cmp (x ∷ y ∷ xs) = (is_gt (cmp x y) ≡ false) × IsSorted cmp (y ∷ xs)

  module _ (cmp : A → A → Ordering)
      (total : (x y : A) → is_gt (cmp x y) ≡ true → is_gt (cmp y x) ≡ false) where
    insert_by-IsSorted : (x : A) (xs : List A) → IsSorted cmp xs → IsSorted cmp (insert_by cmp x xs)
    insert_by-IsSorted x [] s = tt
    insert_by-IsSorted x (y ∷ []) s = ground (arith, total x y)
    insert_by-IsSorted x (y ∷ z ∷ xs) s =
        ground (arith, total x y, total x z, insert_by-IsSorted x (z ∷ xs) s.1)

    pub sort_by-IsSorted : (xs : List A) → IsSorted cmp (sort_by cmp xs)
    sort_by-IsSorted [] = tt
    sort_by-IsSorted (x ∷ xs) = insert_by-IsSorted x (sort_by cmp xs) (sort_by-IsSorted xs)

  -- `max_by` gives an element of the list that none of the others is greater than.
  module _ (cmp : A → A → Ordering) (reflexive : (x : A) → is_gt (cmp x x) ≡ false)
      (total : (x y : A) → is_gt (cmp x y) ≡ true → is_gt (cmp y x) ≡ false)
      (trans : (x y z : A)
        → is_gt (cmp x y) ≡ false
        → is_gt (cmp y z) ≡ false
        → is_gt (cmp x z) ≡ false) where
    max_by_from-greatest :
        (best : A) (xs : List A)
        → In (max_by_from cmp best xs) (best ∷ xs)
          × ((x : A) → In x (best ∷ xs) → is_gt (cmp x (max_by_from cmp best xs)) ≡ false)
    max_by_from-greatest best [] = (
      In-head [] refl,
      λ x m. elim (In-cons x best [] m) [
        | inl e ↦ subst (λ y. is_gt (cmp y best) ≡ false) e (reflexive best)
        | inr (at i g) ↦ absurd (ground arith)
      ],
    )
    max_by_from-greatest best (y ∷ xs) = elim (Bool-cases (is_gt (cmp best y))) [
      | inl keep ↦
          let (found, above) = max_by_from-greatest best xs in
          let top = max_by_from cmp best xs in
          let over_best = above best (In-head xs refl) in
          rw keep (
            elim (In-cons top best xs found) [
              | inl e ↦ In-head _ e
              | inr later ↦ In-tail (In-tail later)
            ],
            λ x m. elim (In-cons x best (y ∷ xs) m) [
              | inl e ↦ subst (λ z. is_gt (cmp z top) ≡ false) e over_best
              | inr rest ↦ elim (In-cons x y xs rest) [
                | inl e ↦
                    subst (λ z. is_gt (cmp z top) ≡ false) e
                      (trans y best top (total best y keep) over_best)
                | inr deep ↦ above x (In-tail deep)
              ]
            ],
          )
      | inr move ↦
          let (found, above) = max_by_from-greatest y xs in
          let top = max_by_from cmp y xs in
          rw move (
            In-tail found,
            λ x m. elim (In-cons x best (y ∷ xs) m) [
              | inl e ↦
                  subst (λ z. is_gt (cmp z top) ≡ false) e
                    (trans best y top move (above y (In-head xs refl)))
              | inr rest ↦ above x rest
            ],
          )
    ]

    pub max_by-greatest :
        (xs : List A) (top : A)
        → max_by cmp xs ≡ some top
        → In top xs × ((x : A) → In x xs → is_gt (cmp x top) ≡ false)
    max_by-greatest [] top h = absurd (ground arith)
    max_by-greatest (y ∷ xs) top h =
        let e : max_by_from cmp y xs ≡ top = cc in
        subst (λ t. In t (y ∷ xs) × ((x : A) → In x (y ∷ xs) → is_gt (cmp x t) ≡ false)) e
          (max_by_from-greatest y xs)
