-- ===== src/Federation/Provider/Cache/Available.antt =====
-- What `get_credential` does while Identity is down.
use deixic_python.Base.{
  ℕ, zero, suc, ◌≤◌, String, Bool, true, false, ◌≡◌, refl, Option, none, some, Result, ok, err,
  strip, is_empty, text_dec, arith, continue, ◌>>=◌, Bool-cases, inl, inr,
}
use deixic_python.Value.{Value}
use deixic_python.Errors.{DeixicError, Response}
use deixic_python.Auth.{Credential}
use deixic_python.Tasks.Types.{
  Raised, deixic, deadline_reached, callback_failed, value_error, foreign,
}
use deixic_python.Client.Network.{Reply, is_success}
use deixic_python.Federation.{is_retryable, is_tolerated, status_error, exchange_error}
use deixic_python.Federation.Provider.{
  Seconds, Surroundings, Settings, Held, Act, outside, as_assertion, assertion_text, is_used,
  reused, claim_assertion, next_assertion,
}
use deixic_python.Federation.Provider.Exchange.{
  as_exchange, transport_failed, caught_as, exchange_request, read_reply, exchange_once,
  source_error, retry, or_retry, attempt_with, attempts, exchange,
}
use deixic_python.Federation.Provider.Methods.{or_cached, get_cached, get_at, get_credential}
use deixic_python.Federation.Provider.Cache.Handed.{ticked}

abbrev Ended : {A : Type 0} → (A → Type 0) → (Raised → Type 0) → Result Raised A → Type 0
Ended Y X (ok a) = Y a
Ended Y X (err e) = X e

-- How an action ends: with a value that has a property, or with an exception that has one.
record Ends {A : Type 0} (Y : A → Type 0) (X : Raised → Type 0) (r : Result Raised A) : Type 0 where
  ended : Ended Y X r

module _ {T : Seconds} {World A B : Type 0} {Y : A → Type 0} {Z : B → Type 0}
    {X : Raised → Type 0} where
  Ends-after :
      (f : A → Act T World B) (r : Result Raised A × Held T World)
      → Ends Y X r.0
      → ((a : A) (t : Held T World) → Y a → Ends Z X (f a t).0)
      → Ends Z X (continue r.0 f r.1).0
  Ends-after f (ok a, t) p k = k a t p.ended
  Ends-after f (err e, t) p k = record { ended = p.ended }

  Ends-bind :
      (m : Act T World A) (f : A → Act T World B) (s : Held T World)
      → Ends Y X (m s).0
      → ((a : A) (t : Held T World) → Y a → Ends Z X (f a t).0)
      → Ends Z X ((m >>= f) s).0
  Ends-bind m f s p k = Ends-after f (m s) p k

-- An exception for which an exchange is tried again.
abbrev Retryable : Raised → Type 0
Retryable e = (d : DeixicError) × (e ≡ deixic d) × (is_retryable d ≡ true)

-- An answer of a transport over which Identity cannot be reached, or of an Identity that says 503.
abbrev pub IsDown : Result Raised Reply → Type 0
IsDown (ok reply) = reply.response.status_code ≡ 503
IsDown (err (deixic e)) = ⊥
IsDown (err e) = Unit

retryable-tolerated : (d : DeixicError) → is_retryable d ≡ true → is_tolerated d ≡ true
retryable-tolerated d h = ground arith

busy-retryable : (r : Response) → r.status_code ≡ 503 → is_retryable (exchange_error r) ≡ true
unfolding exchange_error status_error text_dec
busy-retryable r h = rw (h, exchange_error)

busy-unsuccessful : (n : ℕ) → n ≡ 503 → is_success n ≡ false
busy-unsuccessful n h = ground arith

module _ (T : Seconds) (E : Surroundings T) (settings : Settings T)
    (given : (w : E.World)
      → (a : String) × ((E.source w).0 ≡ ok (Value.text a)) × (is_empty (strip a) ≡ false))
    (down : (w : E.World) (a : String)
      → IsDown (E.exchange (exchange_request T E settings a) w).0) where
  abbrev IsText : Value → Type 0
  IsText v = (a : String) × (assertion_text v ≡ ok a)

  source-Ends : (w : E.World) → Ends IsText (λ e. e ≡ deixic reused) (as_assertion (E.source w).0)
  unfolding assertion_text
  source-Ends w =
      let (a, e, full) = given w in rw e (record { ended = (strip a, rw (full, assertion_text)) })

  claim-Ends :
      (a : String) (s : Held T E.World)
      → Ends (λ _. Unit {0}) (λ e. e ≡ deixic reused) (claim_assertion T E a s).0
  unfolding claim_assertion
  claim-Ends a s = elim (Bool-cases (is_used (E.sha256 a) s.provider.used_assertions)) [
    | inl used ↦ rw used (record { ended = refl })
    | inr new ↦ rw new (record { ended = tt })
  ]

  next_assertion-Ends :
      (s : Held T E.World) → Ends (λ _. Unit {0}) (λ e. e ≡ deixic reused) (next_assertion T E s).0
  unfolding next_assertion
  next_assertion-Ends s =
      Ends-bind (outside (λ w. let (r, u) = E.source w in (as_assertion r, u))) _ s
        (source-Ends s.world) λ v t (a, e). rw e (claim-Ends a t)

  sent-Ends :
      (r : Result Raised Reply)
      → IsDown r
      → Ends (λ (reply : Reply). reply.response.status_code ≡ 503) Retryable (as_exchange r)
  unfolding text_dec
  sent-Ends (ok reply) h = record { ended = h }
  sent-Ends (err deadline_reached) h = record { ended = (transport_failed, refl, refl) }
  sent-Ends (err (callback_failed e)) h = record { ended = (transport_failed, refl, refl) }
  sent-Ends (err value_error) h = record { ended = (transport_failed, refl, refl) }
  sent-Ends (err (foreign n)) h = record { ended = (transport_failed, refl, refl) }
  sent-Ends (err (deixic e)) h = absurd h

  exchange_once-Ends :
      (a : String) (s : Held T E.World) → Ends (λ _. ⊥) Retryable (exchange_once T E settings a s).0
  unfolding exchange_once read_reply
  exchange_once-Ends a s =
      Ends-bind
        (outside
          (λ w. let (r, u) = E.exchange (exchange_request T E settings a) w in (as_exchange r, u)))
        _ s (sent-Ends (E.exchange (exchange_request T E settings a) s.world).0 (down s.world a))
        λ reply t busy. rw (busy-unsuccessful reply.response.status_code busy) (record {
          ended = (exchange_error reply.response, refl, busy-retryable reply.response busy);
        })

  -- Behind a failure, its error is one to try again for; before the first attempt, there is one left.
  abbrev Ready : ℕ → Option DeixicError → Type 0
  Ready remaining none = 1 ≤ remaining
  Ready remaining (some d) = is_retryable d ≡ true

  abbrev Tolerable : Raised → Type 0
  Tolerable e = caught_as is_tolerated e ≡ true

  retryable-Tolerable : (d : DeixicError) → is_retryable d ≡ true → Tolerable (deixic d)
  unfolding caught_as
  retryable-Tolerable d h = retryable-tolerated d h

  reused-Tolerable :
      (remaining : ℕ) (last : Option DeixicError)
      → Ready remaining last
      → Tolerable (source_error T E settings last (deixic reused))
  unfolding caught_as reused text_dec
  reused-Tolerable remaining none h = refl
  reused-Tolerable remaining (some d) h = retryable-Tolerable d h

  retried-Ends :
      (next : Option DeixicError → Act T E.World Credential) (e : Raised) (t : Held T E.World)
      → Retryable e
      → ((d : DeixicError) → is_retryable d ≡ true → Ends (λ _. ⊥) Tolerable (next (some d) t).0)
      → Ends (λ _. ⊥) Tolerable (retry T E settings (caught_as is_retryable e) next e t).0
  unfolding caught_as
  retried-Ends next (deixic x) t (d, same, h) k = rw (again x d same h) (k x (again x d same h))
    where
      again :
          (x d : DeixicError) → deixic x ≡ deixic d → is_retryable d ≡ true → is_retryable x ≡ true
      again x d same h = ground arith
  retried-Ends next deadline_reached t (d, same, h) k = cc
  retried-Ends next (callback_failed x) t (d, same, h) k = cc
  retried-Ends next value_error t (d, same, h) k = cc
  retried-Ends next (foreign n) t (d, same, h) k = cc

  or_retry-Ends :
      (next : Option DeixicError → Act T E.World Credential)
      (r : Result Raised Credential × Held T E.World)
      → Ends (λ _. ⊥) Retryable r.0
      → ((d : DeixicError) (t : Held T E.World)
          → is_retryable d ≡ true
          → Ends (λ _. ⊥) Tolerable (next (some d) t).0)
      → Ends (λ _. ⊥) Tolerable (or_retry T E settings next r).0
  or_retry-Ends next (ok c, t) p k = absurd p.ended
  or_retry-Ends next (err e, t) p k = retried-Ends next e t p.ended (λ d h. k d t h)

  attempt_with-Ends :
      (remaining : ℕ) (last : Option DeixicError)
      (next : Option DeixicError → Act T E.World Credential)
      (r : Result Raised String × Held T E.World)
      → Ready remaining last
      → Ends (λ _. Unit {0}) (λ e. e ≡ deixic reused) r.0
      → ((d : DeixicError) (t : Held T E.World)
          → is_retryable d ≡ true
          → Ends (λ _. ⊥) Tolerable (next (some d) t).0)
      → Ends (λ _. ⊥) Tolerable (attempt_with T E settings last next r).0
  attempt_with-Ends remaining last next (ok a, t) ready p k =
      or_retry-Ends next (exchange_once T E settings a t) (exchange_once-Ends a t) k
  attempt_with-Ends remaining last next (err e, t) ready p k = record {
    ended = rw p.ended (reused-Tolerable remaining last ready);
  }

  attempts-Ends :
      (remaining attempt : ℕ) (last : Option DeixicError) (s : Held T E.World)
      → Ready remaining last
      → Ends (λ _. ⊥) Tolerable (attempts T E settings remaining attempt last s).0
  unfolding attempts
  attempts-Ends zero attempt none s ready = absurd (omega arith)
  attempts-Ends zero attempt (some d) s ready = record { ended = retryable-Tolerable d ready }
  attempts-Ends (suc remaining) attempt last s ready =
      attempt_with-Ends (suc remaining) last (attempts T E settings remaining (suc attempt)) _ ready
        (next_assertion-Ends _) λ d t h. attempts-Ends remaining (suc attempt) (some d) t h

  or_cached-ok :
      (cached : Credential) (r : Result Raised Credential × Held T E.World)
      → Ends (λ _. ⊥) Tolerable r.0
      → (or_cached T E settings cached true r).0 ≡ ok cached
  or_cached-ok cached (ok c, t) p = absurd p.ended
  or_cached-ok cached (err e, t) p = rw p.ended refl

  get_cached-ok :
      (early : Bool) (cached : Credential) (s : Held T E.World)
      → 1 ≤ settings.max_attempts
      → (get_cached T E settings early true cached s).0 ≡ ok cached
  unfolding exchange
  get_cached-ok true cached s h = refl
  get_cached-ok false cached s h =
      or_cached-ok cached _ (attempts-Ends settings.max_attempts 0 none s h)

  get_at-ok :
      (o : Option Credential) (now : T.Time) (cached : Credential) (s : Held T E.World)
      → o ≡ some cached
      → T.before now s.provider.expires_at ≡ true
      → 1 ≤ settings.max_attempts
      → (get_at T E settings o now s).0 ≡ ok cached
  get_at-ok none now cached s h unexpired few = cc
  get_at-ok (some c) now cached s h unexpired few =
      let same : c ≡ cached = ground arith in rw (same, unexpired) (get_cached-ok _ cached s few)

  -- An outage of Identity does not reach a client whose credential has not expired. Where the assertion
  -- source gives a text that is not blank each time, where Identity answers each assertion with status
  -- 503 or the transport raises some exception other than a `DeixicError`, where at least one
  -- attempt is made, and where the clock's reading is before the expiry of the cached credential,
  -- `get_credential` returns the cached credential, whether its refresh is due or not, and whether
  -- the source's assertions are new or used.
  pub get_credential_available :
      (s : Held T E.World) (cached : Credential)
      → s.provider.credential ≡ some cached
      → T.before (E.clock s.world).0 s.provider.expires_at ≡ true
      → 1 ≤ settings.max_attempts
      → (get_credential T E settings s).0 ≡ ok cached
  unfolding get_credential
  get_credential_available s cached h unexpired few =
      get_at-ok s.provider.credential (E.clock s.world).0 cached (ticked E s) h unexpired few
