-- ===== src/Common/StrMap.antt =====
-- Rust's `BTreeMap<String, V>` as the list of its entries.
use mathlib.Core.Path.{◌≡◌, refl}
use mathlib.Core.Bool.{Bool, true, false}
use mathlib.Core.List.{List, [], ◌∷◌}
use mathlib.Core.Option.{Option, none, some}
use missive.Common.Tests.{if◌then◌else◌}
use missive.Common.Str.{Str, str_eq}

abbrev pub StrMap {ℓ} : Type ℓ → Type ℓ
StrMap V = List (Str × V)

abbrev pub is_some {ℓ} : {A : Type ℓ} → Option A → Bool
is_some none = false
is_some (some a) = true

pub is_some→value {ℓ} : {A : Type ℓ} (o : Option A) → is_some o ≡ true → (a : A) × (o ≡ some a)
is_some→value none h = absurd cc
is_some→value (some a) h = (a, refl)

module _ {ℓ} {V : Type ℓ} where
  -- `get` and `contains_key`.
  unfoldable pub map_get : Str → StrMap V → Option V
  map_get key [] = none
  map_get key ((k, v) ∷ rest) =
      let deeper = map_get key rest in if str_eq k key then some v else deeper

  abbrev pub contains_key : Str → StrMap V → Bool
  contains_key key m = is_some (map_get key m)
