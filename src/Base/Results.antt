-- ===== src/Base/Results.antt =====
-- `Result` of Rust over any error type, and `?` as a bind.
use mathlib.Core.Path.{◌≡◌, refl}
use mathlib.Core.Logic.{◌⊎◌, inl, inr}
use mathlib.Core.Option.{Option, none, some}

pub data Result {ℓ κ} (A : Type ℓ) (E : Type κ) : Type (ℓ ⊔ κ) where
  ok : A → Result A E
  err : E → Result A E

infixl 5 ◌>>=◌
abbrev pub ◌>>=◌ {ℓ κ ι} :
    {A : Type ℓ} {B : Type κ} {E : Type ι} → Result A E → (A → Result B E) → Result B E
ok a >>= f = f a
err e >>= f = err e

abbrev pub ok_or {ℓ κ} : {A : Type ℓ} {E : Type κ} → Option A → E → Result A E
ok_or none e = err e
ok_or (some a) e = ok a

-- A split that keeps the equation.
pub Result-cases {ℓ κ} :
    {A : Type ℓ} {E : Type κ} (r : Result A E) → ((a : A) × (r ≡ ok a)) ⊎ ((e : E) × (r ≡ err e))
Result-cases (ok a) = inl (a, refl)
Result-cases (err e) = inr (e, refl)

-- Where a chain of `?` succeeds, its first step did; where it fails, one of the two did.
module _ {ℓ κ ι} {A : Type ℓ} {B : Type κ} {E : Type ι} where
  pub chain_ok :
      (first : Result A E) (next : A → Result B E) {last : B}
      → (first >>= next) ≡ ok last
      → (value : A) × (first ≡ ok value) × (next value ≡ ok last)
  chain_ok (err failure) next h = cc
  chain_ok (ok value) next h = (value, refl, h)

  pub chain_err :
      (first : Result A E) (next : A → Result B E) {failure : E}
      → (first >>= next) ≡ err failure
      → (first ≡ err failure) ⊎ ((value : A) × (first ≡ ok value) × (next value ≡ err failure))
  chain_err (err failure) next h = inl (cc)
  chain_err (ok value) next h = inr (value, refl, h)
