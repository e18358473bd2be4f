-- ===== src/Kernel/Errors/Cases.antt =====
-- Telling results apart.
use florist_core.Prelude.{◌≡◌, ◌⊎◌, refl, inl, inr}
use florist_core.Kernel.Errors.{Error, Result, ok, err}

pub err≢ok : {A : Type 0} {a : A} {e : Error} → err e ≡ ok a → ⊥
err≢ok h = cc

pub ok_inj : {A : Type 0} {a b : A} → ok a ≡ ok b → b ≡ a
ok_inj h = cc

-- To split on a computed result and keep the equation.
pub Result-cases :
    {A : Type 0} (r : Result A) → ((a : A) × (r ≡ ok a)) ⊎ ((e : Error) × (r ≡ err e))
Result-cases (ok a) = inl (a, refl)
Result-cases (err e) = inr (e, refl)
