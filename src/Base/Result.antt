-- ===== src/Base/Result.antt =====
-- Results of fallible calls, `anyhow::Result` with the errors of one component.
use mathlib.Core.Path.{◌≡◌, refl}
use mathlib.Core.Logic.{◌⊎◌, inl, inr}

pub data Result (E A : Type 0) : Type 0 where
  ok : A → Result E A
  err : E → Result E A

pub ok-injective : {E A : Type 0} {a b : A} → ◌≡◌ {A = Result E A} (ok a) (ok b) → a ≡ b
ok-injective h = cc

pub err-injective : {E A : Type 0} {a b : E} → ◌≡◌ {A = Result E A} (err a) (err b) → a ≡ b
err-injective h = cc

pub ok-ne-err : {E A : Type 0} {a : A} {e : E} → ◌≡◌ {A = Result E A} (ok a) (err e) → ⊥
ok-ne-err h = cc

pub Result-cases :
    {E A : Type 0} (r : Result E A) → ((a : A) × (r ≡ ok a)) ⊎ ((e : E) × (r ≡ err e))
Result-cases (ok a) = inl (a, refl)
Result-cases (err e) = inr (e, refl)
