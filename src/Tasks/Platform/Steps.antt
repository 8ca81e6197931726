-- ===== src/Tasks/Platform/Steps.antt =====
-- What the steps of a task handle leave behind.
use deixic_python.Base.{
  ℕ, ◌-◌, String, Bool, true, false, ◌≡◌, refl, Option, none, some, leb, Result, ok, err,
  Bool-cases, inl, inr,
}
use deixic_python.Base.Post.{Post, returned, raised}
use deixic_python.Base.Int.{ℤ}
use deixic_python.Base.Decimal.{int}
use deixic_python.Errors.{DeixicError}
use deixic_python.Tasks.Types.{Checkpoint, Raised, deadline_reached, value_error}
use deixic_python.Tasks.Platform.{
  Platform, Call, Session, call, raise_protocol_if, checked, wrapped, application_call, save,
  remaining, stored_int,
}

module _ {ℓ} {World A : Type 0} {Q : A → Session World → Type ℓ} {J : Session World → Type ℓ} where
  call-Post :
      (s : Session World) (r : Result Raised A × World)
      → ((a : A) (w : World) → r ≡ (ok a, w) → Q a (record s { world = w }))
      → ((w : World) → J (record s { world = w }))
      → Post Q J (let (x, w) = r in (x, record s { world = w }))
  call-Post s (ok a, w) q j = returned a (record s { world = w }) (q a w refl)
  call-Post s (err e, w) q j = raised e (record s { world = w }) (j w)

  -- A call changes the world alone.
  pub called :
      (m : Call World A) (s : Session World)
      → ((a : A) (w : World) → m s.world ≡ (ok a, w) → Q a (record s { world = w }))
      → ((w : World) → J (record s { world = w }))
      → Post Q J (call m s)
  called m s q j = call-Post s (m s.world) q j

  called_at-Post :
      (s : Session World) (r : Result Raised A × World)
      → ((a : A) → r ≡ (ok a, r.1) → Q a (record s { world = r.1 }))
      → J (record s { world = r.1 })
      → Post Q J (r.0, record s { world = r.1 })
  called_at-Post s (ok a, w) q j = returned a _ (q a refl)
  called_at-Post s (err e, w) q j = raised e _ j

  -- The same, of the world that the call leaves.
  pub called_at :
      (m : Call World A) (s : Session World)
      → ((a : A) → m s.world ≡ (ok a, (m s.world).1) → Q a (record s { world = (m s.world).1 }))
      → J (record s { world = (m s.world).1 })
      → Post Q J (call m s)
  called_at m s q j = called_at-Post s (m s.world) q j

  -- A check changes nothing.
  pub checks :
      (r : Result DeixicError A) (s : Session World)
      → ((a : A) → r ≡ ok a → Q a s)
      → J s
      → Post Q J (checked r s)
  checks (ok a) s q j = returned a s (q a refl)
  checks (err e) s q j = raised _ s j

  pub wraps : (r : Result Raised A × Session World) → Post Q J r → Post Q J (wrapped r.0, r.1)
  wraps (ok a, s) p = returned a s p.left
  wraps (err e, s) p = raised _ s p.left

module _ {ℓ} {World : Type 0} {Q : Unit {0} → Session World → Type ℓ}
    {J : Session World → Type ℓ} where
  pub raises_if :
      (b : Bool) (message : String) (s : Session World)
      → (b ≡ false → Q tt s)
      → J s
      → Post Q J (raise_protocol_if b message s)
  raises_if true message s q j = raised _ s j
  raises_if false message s q j = returned tt s (q refl)

  pub saves :
      (on_checkpoint : Option (Checkpoint → Call World (Unit {0}))) (s : Session World)
      → ((w : World) → Q tt (record s { world = w }))
      → ((w : World) → J (record s { world = w }))
      → Post Q J (save on_checkpoint s)
  unfolding save
  saves none s q j = returned tt s (q s.world)
  saves (some f) s q j = called (f s.task.checkpoint) s (λ a w h. q w) j

  pub saves_wrapped :
      (on_checkpoint : Option (Checkpoint → Call World (Unit {0}))) (s : Session World)
      → ((w : World) → Q tt (record s { world = w }))
      → ((w : World) → J (record s { world = w }))
      → Post Q J (application_call (save on_checkpoint) s)
  unfolding application_call
  saves_wrapped on_checkpoint s q j = wraps _ (saves on_checkpoint s q j)

module _ {ℓ} {World : Type 0} {Q : ℤ → Session World → Type ℓ} {J : Session World → Type ℓ} where
  parses-Post :
      (o : Option ℤ) (s : Session World)
      → ((n : ℤ) → o ≡ some n → Q n s)
      → J s
      → Post {E = Raised} Q J (elim o [ some n ↦ (ok n, s) | none ↦ (err value_error, s) ])
  parses-Post none s q j = raised value_error s j
  parses-Post (some n) s q j = returned n s (q n refl)

  -- Reading a stored number changes nothing.
  pub parses :
      (text : String) (s : Session World)
      → ((n : ℤ) → int text ≡ some n → Q n s)
      → J s
      → Post Q J (stored_int text s)
  parses text s q j = parses-Post (int text) s q j

module _ {ℓ} (P : Platform) {Q : Option ℕ → Session P.World → Type ℓ}
    {J : Session P.World → Type ℓ} where
  pub remains :
      (deadline : Option ℕ) (s : Session P.World)
      → ((left : Option ℕ) (w : P.World) → Q left (record s { world = w }))
      → ((w : P.World) → J (record s { world = w }))
      → Post Q J (remaining P deadline s)
  unfolding remaining
  remains none s q j = returned none s (q none s.world)
  remains (some deadline) s q j =
      let (now, w) = P.monotonic s.world in
      elim (Bool-cases (leb deadline now)) [
        | inl over ↦ rw over (raised deadline_reached (record s { world = w }) (j w))
        | inr left ↦ rw left (
            returned (some (deadline - now)) (record s { world = w }) (q (some (deadline - now)) w))
      ]
