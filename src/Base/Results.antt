-- ===== src/Base/Results.antt =====
-- `anyhow::Result`: the error is a value of the component's own type.
use mathlib.Core.Path.{◌≡◌, refl}
use mathlib.Core.Option.{Option, none, some}

pub data Result {ℓ κ} (E : Type κ) (A : Type ℓ) : Type (ℓ ⊔ κ) where
  ok : A → Result E A
  err : E → Result E A

infixl 5 ◌>>=◌
abbrev pub ◌>>=◌ {ℓ κ ν} :
    {E : Type ν} {A : Type ℓ} {B : Type κ} → Result E A → (A → Result E B) → Result E B
ok a >>= f = f a
err e >>= f = err e

-- `ok_or_else`.
abbrev pub ok_or {ℓ κ} : {E : Type κ} {A : Type ℓ} → Option A → E → Result E A
ok_or none e = err e
ok_or (some a) e = ok a

-- What holds of both outcomes of a chain.
pub bind_holds {ℓ κ ν μ} :
    {E : Type μ} {A : Type ℓ} {B : Type κ} (P : Result E B → Type ν) (r : Result E A)
    (f : A → Result E B)
    → ((e : E) → P (err e))
    → ((a : A) → r ≡ ok a → P (f a))
    → P (r >>= f)
bind_holds P (err e) f fails goes = fails e
bind_holds P (ok a) f fails goes = goes a refl
