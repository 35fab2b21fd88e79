-- ===== src/Base/Outcome.antt =====
-- What a Rust call can do: return a value, or panic (a failed assert, an unwrap of None, an index
-- out of bounds).
use mathlib.Core.Path.{◌≡◌, refl}
use mathlib.Core.Bool.{Bool, true, false}
use mathlib.Core.Option.{Option, none, some}

pub data Result {ℓ} (A : Type ℓ) : Type ℓ where
  panic : Result A
  ok : A → Result A

-- Option::unwrap, and an index into a Vec.
abbrev pub unwrap {ℓ} : {A : Type ℓ} → Option A → Result A
unwrap none = panic
unwrap (some a) = ok a

-- assert!(b)
abbrev pub assert : Bool → Result (Unit {0})
assert true = ok tt
assert false = panic

-- The next statement runs if the one before it returned.
infixl 5 ◌>>=◌
abbrev pub ◌>>=◌ {ℓ κ} :
    {Before : Type ℓ} {After : Type κ} → Result Before → (Before → Result After) → Result After
panic >>= next = panic
ok value >>= next = next value

infixl 5 ◌>>◌
abbrev pub ◌>>◌ {ℓ} : {After : Type ℓ} → Result (Unit {0}) → Result After → Result After
panic >> next = panic
ok _ >> next = next

pub >>=-eq-ok {ℓ κ} :
    {Before : Type ℓ} {After : Type κ} (m : Result Before) (f : Before → Result After) {b : After}
    → (m >>= f) ≡ ok b
    → (a : Before) × (m ≡ ok a) × (f a ≡ ok b)
>>=-eq-ok (ok a) f h = (a, refl, h)
>>=-eq-ok panic f h = cc
