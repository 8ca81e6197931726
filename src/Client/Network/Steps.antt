-- ===== src/Client/Network/Steps.antt =====
-- What the steps of a call leave behind.
use deixic_python.Base.{String, ◌≡◌, refl, Result, ok, err}
use deixic_python.Base.Post.{Post, returned, raised}
use deixic_python.Errors.{DeixicError}
use deixic_python.Auth.{Credential, Identity}
use deixic_python.Tasks.Types.{Raised, deixic}
use deixic_python.Tasks.Platform.{Call}
use deixic_python.Client.Network.{Connection, reach, judged, judge, as_transport}

module _ {ℓ} {World A : Type 0} {Q : A → Connection World → Type ℓ}
    {J : Connection World → Type ℓ} where
  reach-Post :
      (s : Connection World) (r : Result Raised A × World)
      → ((a : A) → r ≡ (ok a, r.1) → Q a (record s { world = r.1 }))
      → J (record s { world = r.1 })
      → Post Q J (r.0, record s { world = r.1 })
  reach-Post s (ok a, w) q j = returned a _ (q a refl)
  reach-Post s (err e, w) q j = raised e _ j

  -- A call over the network changes the world alone.
  pub reaches :
      (m : Call World A) (s : Connection World)
      → ((a : A) → m s.world ≡ (ok a, (m s.world).1) → Q a (record s { world = (m s.world).1 }))
      → J (record s { world = (m s.world).1 })
      → Post Q J (reach m s)
  reaches m s q j = reach-Post s (m s.world) q j

  transport-Post :
      (message : String) (s : Connection World) (r : Result Raised A × World)
      → ((a : A) → r ≡ (ok a, r.1) → Q a (record s { world = r.1 }))
      → J (record s { world = r.1 })
      → Post Q J (as_transport message r.0, record s { world = r.1 })
  transport-Post message s (ok a, w) q j = returned a _ (q a refl)
  transport-Post message s (err (deixic e), w) q j = raised _ _ j
  transport-Post message s (err Raised.deadline_reached, w) q j = raised _ _ j
  transport-Post message s (err (Raised.callback_failed e), w) q j = raised _ _ j
  transport-Post message s (err Raised.value_error, w) q j = raised _ _ j
  transport-Post message s (err (Raised.foreign n), w) q j = raised _ _ j

  -- So does one that maps its exceptions.
  pub transports :
      (message : String) (m : Call World A) (s : Connection World)
      → ((a : A) → m s.world ≡ (ok a, (m s.world).1) → Q a (record s { world = (m s.world).1 }))
      → J (record s { world = (m s.world).1 })
      → Post Q J (as_transport message (m s.world).0, record s { world = (m s.world).1 })
  transports message m s q j = transport-Post message s (m s.world) q j

module _ {ℓ} {World : Type 0} {Q : Credential → Connection World → Type ℓ}
    {J : Connection World → Type ℓ} where
  judged-Post :
      (s : Connection World) (r : Result DeixicError Credential × Identity)
      → ((c : Credential) → r ≡ (ok c, r.1) → Q c (record s { identity = r.1 }))
      → J (record s { identity = r.1 })
      → Post Q J (judged r s)
  judged-Post s (ok c, i) q j = returned c _ (q c refl)
  judged-Post s (err e, i) q j = raised _ _ j

  -- The identity's judgement changes the identity alone.
  pub judges :
      (f : Identity → Result DeixicError Credential × Identity) (s : Connection World)
      → ((c : Credential)
          → f s.identity ≡ (ok c, (f s.identity).1)
          → Q c (record s { identity = (f s.identity).1 }))
      → J (record s { identity = (f s.identity).1 })
      → Post Q J (judge f s)
  judges f s q j = judged-Post s (f s.identity) q j
