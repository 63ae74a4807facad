-- ===== src/Prelude/Results.antt =====
-- Results with errors: `inl` is an error value of the source, `inr` a result.
use mathlib.Core.Logic.{◌⊎◌, inl, inr}
use mathlib.Core.Option.{Option, none, some}

infixl 5 ◌>>=◌
abbrev pub ◌>>=◌ {ℓ κ μ} : {E : Type ℓ} {A : Type κ} {B : Type μ} → E ⊎ A → (A → E ⊎ B) → E ⊎ B
inl e >>= f = inl e
inr a >>= f = f a

-- `if err != nil { return …, e }`
abbrev pub or_error {ℓ κ} : {E : Type ℓ} {A : Type κ} → E → Option A → E ⊎ A
or_error e none = inl e
or_error e (some a) = inr a
