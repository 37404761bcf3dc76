-- ===== src/Common/Outcome.antt =====
-- Python functions that may raise: a value, or the exception that leaves the function.
use mathlib.Core.Path.{◌≡◌, refl}

-- The classes of exceptions that the code tells apart.
pub data Error : Type 0 where
  value_error os_error runtime_error subprocess_error attribute_error type_error : Error

module _ {ℓ} where
  pub data Result (A : Type ℓ) : Type ℓ where
    err : Error → Result A
    ok : A → Result A

infixl 5 ◌>>=◌
abbrev pub ◌>>=◌ {ℓ κ} : {X : Type ℓ} {Y : Type κ} → Result X → (X → Result Y) → Result Y
err raised >>= rest = err raised
ok value >>= rest = rest value

infixl 5 ◌>>◌
abbrev pub ◌>>◌ {ℓ} : {Y : Type ℓ} → Result (Unit {0}) → Result Y → Result Y
first >> rest = first >>= λ _. rest

module _ {ℓ κ} {X : Type ℓ} {Y : Type κ} where
  -- A chain that returns has a first part that returns.
  pub >>=-eq-ok :
      (first : Result X) (rest : X → Result Y) {result : Y}
      → (first >>= rest) ≡ ok result
      → (value : X) × (first ≡ ok value) × (rest value ≡ ok result)
  >>=-eq-ok (err raised) rest e = cc
  >>=-eq-ok (ok value) rest e = (value, refl, e)

-- The call raises nothing.
abbrev pub Returns {ℓ} : {A : Type ℓ} → Result A → Type ℓ
Returns {A = A} r = (a : A) × (r ≡ ok a)

-- The call raises nothing but ValueError.
abbrev pub RaisesValueError {ℓ} : {A : Type ℓ} → Result A → Type 0
RaisesValueError (err e) = e ≡ value_error
RaisesValueError (ok a) = Unit

module _ {ℓ κ} {X : Type ℓ} {Y : Type κ} where
  pub bind-RaisesValueError :
      (first : Result X) (rest : X → Result Y)
      → RaisesValueError first
      → ((value : X) → RaisesValueError (rest value))
      → RaisesValueError (first >>= rest)
  bind-RaisesValueError (err raised) rest h k = h
  bind-RaisesValueError (ok value) rest h k = k value
