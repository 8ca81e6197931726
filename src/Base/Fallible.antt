-- ===== src/Base/Fallible.antt =====
-- `do` blocks over calls that may raise and change no state.
use deixic_python.Base.Outcome.{Result, and_then}

infixl 5 ◌>>=◌ ◌>>◌
abbrev pub ◌>>=◌ {ℓ κ μ} :
    {E : Type ℓ} {A : Type κ} {B : Type μ} → Result E A → (A → Result E B) → Result E B
m >>= f = and_then m f

abbrev pub ◌>>◌ {ℓ κ} : {E : Type ℓ} {B : Type κ} → Result E (Unit {0}) → Result E B → Result E B
m >> k = and_then m (λ _. k)
