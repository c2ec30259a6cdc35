-- ===== src/Common/Results.antt =====
-- Go's pairs of a value and an error: one of the two is there.
use mathlib.Core.Path.{◌≡◌, refl}
use mathlib.Core.Logic.{◌⊎◌, inl, inr}

pub data Result {ℓ κ} (E : Type κ) (A : Type ℓ) : Type (ℓ ⊔ κ) where
  ok : A → Result E A
  err : E → Result E A

pub Result-cases {ℓ κ} :
    {E : Type κ} {A : Type ℓ} (r : Result E A) → ((a : A) × (r ≡ ok a)) ⊎ ((e : E) × (r ≡ err e))
Result-cases (ok a) = inl (a, refl)
Result-cases (err e) = inr (e, refl)

-- A pair whose first part is known.
pub pair-eq {ℓ κ} : {A : Type ℓ} {B : Type κ} (p : A × B) {a : A} → p.0 ≡ a → p ≡ (a, p.1)
pair-eq p h = λ i. (h i, p.1)
