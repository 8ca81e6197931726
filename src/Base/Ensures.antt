-- ===== src/Base/Ensures.antt =====
-- Properties of what a call returns, if it returns, with a rule for each step of a `do` block.
use mathlib.Core.Path.{◌≡◌, refl, subst}
use deixic_python.Base.Outcome.{Result, ok, err, and_then}

abbrev Returned {ℓ κ μ} : {E : Type ℓ} {A : Type κ} → (A → Type μ) → Result E A → Type μ
Returned P (ok a) = P a
Returned P (err e) = Unit

pub record Ensures {ℓ κ μ} {E : Type ℓ} {A : Type κ} (P : A → Type μ) (m : Result E A)
    : Type μ where
  pub holds : Returned P m

pub ok-injective {ℓ κ} :
    {E : Type ℓ} {A : Type κ} (a b : A) → ◌≡◌ {A = Result E A} (ok a) (ok b) → a ≡ b
ok-injective a b h = cc

module _ {ℓ κ μ} {E : Type ℓ} {A : Type κ} {P : A → Type μ} where
  pub Ensures-ok : {a : A} → P a → Ensures {E = E} P (ok a)
  Ensures-ok h = record { holds = h }

  pub Ensures-err : (e : E) → Ensures P (err e)
  Ensures-err e = record { holds = tt }

  -- The property of the value that was returned.
  pub Ensures-returned : (m : Result E A) {a : A} → Ensures P m → m ≡ ok a → P a
  Ensures-returned (ok b) h e = subst P (ok-injective b _ e) h.holds
  Ensures-returned (err x) h e = cc

module _ {ℓ κ μ ν} {E : Type ℓ} {A : Type κ} {B : Type μ} {P : B → Type ν} where
  pub Ensures-bind :
      (m : Result E A) {f : A → Result E B}
      → ((a : A) → m ≡ ok a → Ensures P (f a))
      → Ensures P (and_then m f)
  Ensures-bind (ok a) h = h a refl
  Ensures-bind (err e) h = record { holds = tt }
