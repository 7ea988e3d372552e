-- ===== src/Prelude/Results.antt =====
-- Rust's `Result`, whose error type is the first argument, `?` as a bind, and `ok_or`.
use mathlib.Core.Path.{◌≡◌, refl}
use mathlib.Core.Option.{Option, none, some}

pub data Result {ℓ} (E : Type 0) (A : Type ℓ) : Type ℓ where
  err : E → Result E A
  ok : A → Result E A

module _ {E : Type 0} where
  infixl 5 ◌>>=◌
  abbrev pub ◌>>=◌ {ℓ κ} : {A : Type ℓ} {B : Type κ} → Result E A → (A → Result E B) → Result E B
  err stopped >>= next = err stopped
  ok value >>= next = next value

  abbrev pub ok_or {ℓ} : {A : Type ℓ} → Option A → E → Result E A
  ok_or none stopped = err stopped
  ok_or (some value) stopped = ok value

  -- A chain that succeeds has succeeded at its first step, with a value for the rest.
  pub first_ok {ℓ κ} :
      {A : Type ℓ} {B : Type κ} (step : Result E A) (next : A → Result E B) {out : B}
      → (step >>= next) ≡ ok out
      → (value : A) × (step ≡ ok value) × (next value ≡ ok out)
  first_ok (err stopped) next e = cc
  first_ok (ok value) next e = (value, refl, e)
