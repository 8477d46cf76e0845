-- ===== src/Prelude/Chains.antt =====
-- Two calls in a row, where the first may give nothing.
use mathlib.Core.Path.{◌≡◌, refl, ap}
use mathlib.Core.Option.{Option, none, some}
use native.Mathlib.Omega.{arith}

-- What two calls in a row give, where both give something.
pub chained {ℓ κ} :
    {A : Type ℓ} {B : Type κ} (o : Option A) (f : A → Option B) (b : B)
    → (elim o [ none ↦ none | some a ↦ f a ]) ≡ some b
    → (a : A) × (o ≡ some a) × (f a ≡ some b)
chained none f b h = absurd (ground arith)
chained (some a) f b h = (a, refl, h)

pub chain {ℓ κ} :
    {A : Type ℓ} {B : Type κ} (o : Option A) (a : A) (f : A → Option B)
    → o ≡ some a
    → (elim o [ none ↦ none | some x ↦ f x ]) ≡ f a
chain o a f h = ap (λ x. elim x [ none ↦ none | some y ↦ f y ]) h
