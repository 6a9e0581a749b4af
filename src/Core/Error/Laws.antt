-- ===== src/Core/Error/Laws.antt =====
-- The exit codes of crates/missive-core/src/error.rs, and the laws of the result type.
use missive.Common.{Bool, true, false, arith, ap, Option, some, ◌≡◌, refl}
use missive.Core.Error.{fail_if, Returns, MissiveError, Result, ok, err, panic, hang, ◌>>=◌, expect}

pub ok-injective {ℓ} : {A : Type ℓ} {a b : A} → ok a ≡ ok b → a ≡ b
ok-injective h = cc

-- A call with `?` that gives a value went on with a value.
pub >>=-eq-ok {ℓ κ} :
    {A : Type ℓ} {B : Type κ} (called : Result A) (rest : A → Result B) {given : B}
    → (called >>= rest) ≡ ok given
    → (value : A) × (called ≡ ok value) × (rest value ≡ ok given)
>>=-eq-ok panic rest h = cc
>>=-eq-ok hang rest h = cc
>>=-eq-ok (err failure) rest h = cc
>>=-eq-ok (ok value) rest h = (value, refl, h)

pub expect-some {ℓ κ} :
    {A : Type ℓ} {B : Type κ} (o : Option A) {a : A} (f : A → Result B)
    → o ≡ some a
    → (expect o >>= f) ≡ f a
expect-some o f e = ap (λ o. expect o >>= f) e

-- Calls that come back, one after the other.
pub >>=-Returns {ℓ κ} :
    {A : Type ℓ} {B : Type κ} (called : Result A) (rest : A → Result B)
    → Returns called
    → ((a : A) → called ≡ ok a → Returns (rest a))
    → Returns (called >>= rest)
>>=-Returns (ok a) rest h more = more a refl
>>=-Returns (err e) rest h more = tt
>>=-Returns panic rest h more = h
>>=-Returns hang rest h more = h

pub fail_if-Returns : (b : Bool) (e : MissiveError) → Returns (fail_if b e)
fail_if-Returns true e = tt
fail_if-Returns false e = tt

pub fail_if-ok : (b : Bool) (e : MissiveError) {u : Unit {0}} → fail_if b e ≡ ok u → b ≡ false
fail_if-ok b e h = ground arith
