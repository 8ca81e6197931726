-- ===== src/Base/Post.antt =====
-- What an action leaves behind: a property of the value and the state where it returns, and one of
-- the state where it raises, with a rule for each step of a `do` block.
use mathlib.Core.Path.{◌≡◌, refl, subst}
use deixic_python.Base.Outcome.{Result, ok, err, Action, continue, ◌>>=◌}

abbrev Left {ℓ} : {S E A : Type 0} → (A → S → Type ℓ) → (S → Type ℓ) → Result E A × S → Type ℓ
Left Q J (ok a, s) = Q a s
Left Q J (err e, s) = J s

pub record Post {ℓ} {S E A : Type 0} (Q : A → S → Type ℓ) (J : S → Type ℓ) (r : Result E A × S)
    : Type ℓ where
  pub left : Left Q J r

module _ {ℓ} {S E A : Type 0} {Q : A → S → Type ℓ} {J : S → Type ℓ} where
  pub returned : (a : A) (s : S) → Q a s → Post {E = E} Q J (ok a, s)
  returned a s q = record { left = q }

  pub raised : (e : E) (s : S) → J s → Post Q J (err e, s)
  raised e s j = record { left = j }

  pub Post-ok : (r : Result E A × S) {a : A} {t : S} → r ≡ (ok a, t) → Post Q J r → Q a t
  Post-ok r h p = subst (Left Q J) h p.left

  pub Post-err : (r : Result E A × S) {e : E} {t : S} → r ≡ (err e, t) → Post Q J r → J t
  Post-err r h p = subst (Left Q J) h p.left

  pub Post-state {κ} :
      (T : S → Type κ) (r : Result E A × S)
      → Post Q J r
      → ((a : A) (t : S) → Q a t → T t)
      → ((t : S) → J t → T t)
      → T r.1
  Post-state T (ok a, s) p q j = q a s p.left
  Post-state T (err e, s) p q j = j s p.left

module _ {ℓ κ} {S E A : Type 0} {Q : A → S → Type ℓ} {J : S → Type ℓ} {R : A → S → Type κ}
    {K : S → Type κ} where
  pub Post-weaken :
      (r : Result E A × S)
      → Post Q J r
      → ((a : A) (t : S) → Q a t → R a t)
      → ((t : S) → J t → K t)
      → Post R K r
  Post-weaken (ok a, s) p q j = returned a s (q a s p.left)
  Post-weaken (err e, s) p q j = raised e s (j s p.left)

module _ {ℓ} {S E A B : Type 0} {Q : A → S → Type ℓ} {R : B → S → Type ℓ} {J : S → Type ℓ} where
  Post-after :
      (f : A → Action S E B) (r : Result E A × S)
      → Post Q J r
      → ((a : A) (t : S) → r ≡ (ok a, t) → Q a t → Post R J (f a t))
      → Post R J (continue r.0 f r.1)
  Post-after f (ok a, t) p k = k a t refl p.left
  Post-after f (err e, t) p k = record { left = p.left }

  pub Post-bind :
      (m : Action S E A) (f : A → Action S E B) (s : S)
      → Post Q J (m s)
      → ((a : A) (t : S) → m s ≡ (ok a, t) → Q a t → Post R J (f a t))
      → Post R J ((m >>= f) s)
  Post-bind m f s p k = Post-after f (m s) p k
