-- ===== src/Prelude/Fallible.antt =====
-- The `?` operator of Rust on `Result`, and the ways to come to a `Result`.
use mathlib.Core.Option.{Option, none, some}
use phantasma.Prelude.Results.{Result, ok, err}

module _ {ℓ κ μ} {E : Type ℓ} {A : Type κ} {B : Type μ} where
  infixl 5 ◌>>=◌
  abbrev pub ◌>>=◌ : Result E A → (A → Result E B) → Result E B
  ok a >>= f = f a
  err e >>= f = err e

module _ {ℓ κ} {E : Type ℓ} {A : Type κ} where
  -- `Option::ok_or`
  abbrev pub ok_or : E → Option A → Result E A
  ok_or e none = err e
  ok_or e (some a) = ok a
