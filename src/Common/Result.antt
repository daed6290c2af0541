-- ===== src/Common/Result.antt =====
-- Go's (value, error) pair.
use mathlib.Core.Path.{◌≡◌, refl, ap}
use mathlib.Core.Logic.{◌⊎◌, inl, inr}
use mathlib.Core.Bool.{Bool, true, false}
use hacker_sprint2_sim.Common.Tests.{if◌then◌else◌}

pub data Result {ℓ κ} (E : Type ℓ) (A : Type κ) : Type (ℓ ⊔ κ) where
  ok : A → Result E A
  err : E → Result E A

pub Result-cases {ℓ κ} :
    {E : Type ℓ} {A : Type κ} (r : Result E A) → ((e : E) × (r ≡ err e)) ⊎ ((a : A) × (r ≡ ok a))
Result-cases (err e) = inl (e, refl)
Result-cases (ok a) = inr (a, refl)

pub ok-injective {ℓ κ} :
    {E : Type ℓ} {A : Type κ} {a b : A} → ◌≡◌ {A = Result E A} (ok a) (ok b) → a ≡ b
ok-injective {a = a} h = ap (λ r. elim r [ ok x ↦ x | err e ↦ a ]) h

pub err_ne_ok {ℓ κ} :
    {E : Type ℓ} {A : Type κ} {e : E} {a : A} → ¬ (◌≡◌ {A = Result E A} (err e) (ok a))
err_ne_ok h = cc

-- v, err := r; if err != nil { return err }
unfoldable pub and_then {ℓ κ μ} :
    {E : Type ℓ} {A : Type κ} {B : Type μ} → Result E A → (A → Result E B) → Result E B
and_then (err e) k = err e
and_then (ok a) k = k a

pub and_then-ok {ℓ κ μ} :
    {E : Type ℓ} {A : Type κ} {B : Type μ} {b : B} (r : Result E A) (k : A → Result E B)
    → and_then r k ≡ ok b
    → (a : A) × (r ≡ ok a) × (k a ≡ ok b)
unfolding and_then
and_then-ok (err e) k h = absurd (err_ne_ok h)
and_then-ok (ok a) k h = (a, refl, h)

-- A guard that was passed: if b { return err }
pub guard-ok {ℓ κ} :
    {E : Type ℓ} {A : Type κ} {a : A} (e : E) (b : Bool) (r : Result E A)
    → (if b then err e else r) ≡ ok a
    → (b ≡ false) × (r ≡ ok a)
guard-ok e true r h = absurd (err_ne_ok h)
guard-ok e false r h = (refl, h)
