-- ===== src/Federation/Provider/Steps.antt =====
-- What the steps of an exchange leave behind.
use deixic_python.Base.{
  String, Bool, true, false, ◌≡◌, refl, Option, Result, ok, err, ◌>>=◌, Bool-cases, Result-cases,
  inl, inr,
}
use deixic_python.Base.Post.{Post, returned, raised, Post-bind}
use deixic_python.Errors.{DeixicError, Response}
use deixic_python.Auth.{Credential}
use deixic_python.Tasks.Types.{
  Raised, deixic, deadline_reached, callback_failed, value_error, foreign,
}
use deixic_python.Client.Network.{Reply, is_success}
use deixic_python.Federation.Provider.{
  Seconds, Surroundings, Settings, Held, Act, outside, checked, as_assertion, assertion_text,
  is_used, remember, claim_assertion, next_assertion,
}
use deixic_python.Federation.Provider.Exchange.{
  as_exchange, caught, caught_as, read_credential, store, credential_from, exchange_request,
  closing, read_status, read_reply, exchange_once, retry, or_retry, attempt_with,
}
use deixic_python.Federation.{is_retryable}

module _ {T : Seconds} {World A : Type 0} {Q : A → Held T World → Type 0}
    {J : Held T World → Type 0} where
  -- A check changes nothing.
  pub checks :
      (r : Result DeixicError A) (s : Held T World)
      → J s
      → ((a : A) → r ≡ ok a → Q a s)
      → Post Q J (checked r s)
  checks (ok a) s j q = returned a s (q a refl)
  checks (err e) s j q = raised _ s j

  assertion-Post :
      (s : Held T World) (r : Result Raised A × World)
      → ((a : A) → Q a (record s { world = r.1 }))
      → J (record s { world = r.1 })
      → Post Q J (as_assertion r.0, record s { world = r.1 })
  assertion-Post s (ok a, w) q j = returned a _ (q a)
  assertion-Post s (err (deixic e), w) q j = raised _ _ j
  assertion-Post s (err deadline_reached, w) q j = raised _ _ j
  assertion-Post s (err (callback_failed e), w) q j = raised _ _ j
  assertion-Post s (err value_error, w) q j = raised _ _ j
  assertion-Post s (err (foreign n), w) q j = raised _ _ j

  exchange-Post :
      (s : Held T World) (r : Result Raised A × World)
      → ((a : A) → Q a (record s { world = r.1 }))
      → J (record s { world = r.1 })
      → Post Q J (as_exchange r.0, record s { world = r.1 })
  exchange-Post s (ok a, w) q j = returned a _ (q a)
  exchange-Post s (err (deixic e), w) q j = raised _ _ j
  exchange-Post s (err deadline_reached, w) q j = raised _ _ j
  exchange-Post s (err (callback_failed e), w) q j = raised _ _ j
  exchange-Post s (err value_error, w) q j = raised _ _ j
  exchange-Post s (err (foreign n), w) q j = raised _ _ j

module _ {T : Seconds} {World A B : Type 0} {R : B → Held T World → Type 0}
    {J : Held T World → Type 0} where
  -- A step of a `do` block that may raise and changes nothing.
  pub after_check :
      (r : Result DeixicError A) (f : A → Act T World B) (s : Held T World)
      → J s
      → ((a : A) → Post R J (f a s))
      → Post R J ((checked r >>= f) s)
  after_check r f s j k =
      Post-bind (checked r) f s (checks {Q = λ _ t. t ≡ s} r s j (λ _ _. refl))
        λ a t e same. rw same (k a)

module _ (T : Seconds) (E : Surroundings T) (settings : Settings T) {K : Held T E.World → Type 0}
    {Q : Credential → Held T E.World → Type 0} where
  -- The reading of a response stores the credential that it returns.
  pub credentials :
      (response : Response) (s : Held T E.World)
      → K s
      → ((c : Credential) (expiry : T.Time)
          → Q c (record s {
            world = (E.clock s.world).1;
            provider = store T E settings c expiry (E.clock s.world).0 s.provider;
          }))
      → Post Q K (credential_from T E settings response s)
  unfolding credential_from
  credentials response s j q = elim (Result-cases (read_credential T E settings response)) [
    | inl ((c, expiry), e) ↦ rw e (returned c _ (q c expiry))
    | inr (x, e) ↦ rw e (raised x s j)
  ]

  reads :
      (b : Bool) (response : Response) (s : Held T E.World)
      → K s
      → Post Q K (credential_from T E settings response s)
      → Post Q K (read_status T E settings b response s)
  reads true response s k p = p
  reads false response s k p = raised _ s k

module _ (T : Seconds) (E : Surroundings T) (settings : Settings T)
    {J : Held T E.World → Type 0} where
  module _ {Q : String → Held T E.World → Type 0} where
    claimed :
        (a : String) (s : Held T E.World)
        → (is_used (E.sha256 a) s.provider.used_assertions ≡ false
            → Q a (record s {
              provider = record s.provider {
                used_assertions = remember (E.sha256 a) s.provider.used_assertions;
              };
            }))
        → J s
        → Post Q J (claim_assertion T E a s)
    unfolding claim_assertion
    claimed a s q j = elim (Bool-cases (is_used (E.sha256 a) s.provider.used_assertions)) [
      | inl used ↦ rw used (raised _ s j)
      | inr new ↦ rw new (returned a _ (q new))
    ]

    -- An assertion joins the digests, among which it was not.
    pub asserts :
        (s : Held T E.World)
        → ((a : String)
            → is_used (E.sha256 a) s.provider.used_assertions ≡ false
            → Q a (record s {
              world = (E.source s.world).1;
              provider = record s.provider {
                used_assertions = remember (E.sha256 a) s.provider.used_assertions;
              };
            }))
        → J (record s { world = (E.source s.world).1 })
        → Post Q J (next_assertion T E s)
    unfolding next_assertion
    asserts s q j =
        let after : Held T E.World = record s { world = (E.source s.world).1 } in
        Post-bind (outside (λ w. let (r, u) = E.source w in (as_assertion r, u))) _ s
          (assertion-Post {Q = λ _ t. t ≡ after} s (E.source s.world) (λ _. refl) j)
          λ v t _ same. rw same (
            after_check (assertion_text v) (claim_assertion T E) after j
              λ a. claimed a after (q a) j)

  module _ {Q : Credential → Held T E.World → Type 0} where
    closed :
        (reply : Reply) (r : Result Raised Credential × Held T E.World)
        → Post
            (λ c t. Q c (record t { world = E.close reply t.world }))
            (λ t. J (record t { world = E.close reply t.world }))
            r
        → Post Q J (closing T E settings reply r)
    closed reply (ok c, t) p = returned c _ p.left
    closed reply (err e, t) p = raised e _ p.left

    -- So does the exchange of an assertion, with the response closed either way.
    pub exchanges :
        (a : String) (s : Held T E.World)
        → (let w = (E.exchange (exchange_request T E settings a) s.world).1 in
            J (record s { world = w })
            × ((reply : Reply) → J (record s { world = E.close reply w }))
            × ((reply : Reply) (c : Credential) (expiry : T.Time)
                → Q c (record s {
                  world = E.close reply (E.clock w).1;
                  provider = store T E settings c expiry (E.clock w).0 s.provider;
                })))
        → Post Q J (exchange_once T E settings a s)
    unfolding exchange_once read_reply
    exchanges a s (j, k, q) =
        let w = (E.exchange (exchange_request T E settings a) s.world).1 in
        let after : Held T E.World = record s { world = w } in
        Post-bind
          (outside (λ w.
            let (r, u) = E.exchange (exchange_request T E settings a) w in (as_exchange r, u)))
          _ s
          (exchange-Post {Q = λ _ t. t ≡ after} s
            (E.exchange (exchange_request T E settings a) s.world) (λ _. refl) j)
          λ reply t _ same. rw same (
            closed reply _ (
              reads T E settings (is_success reply.response.status_code) reply.response after
                (k reply) (credentials T E settings reply.response after (k reply) (q reply))))

    retried :
        (b : Bool) (next : Option DeixicError → Act T E.World Credential) (e : Raised)
        (t : Held T E.World)
        → J t
        → ((last : Option DeixicError) → Post Q J (next last t))
        → Post Q J (retry T E settings b next e t)
    retried true next e t j k = k (caught e)
    retried false next e t j k = raised e t j

    -- An attempt that fails is followed by another, or by its exception.
    pub retries :
        {M : Held T E.World → Type 0} (next : Option DeixicError → Act T E.World Credential)
        (r : Result Raised Credential × Held T E.World)
        → Post Q M r
        → ((t : Held T E.World) → M t → J t)
        → ((last : Option DeixicError) (t : Held T E.World) → M t → Post Q J (next last t))
        → Post Q J (or_retry T E settings next r)
    retries next (ok c, t) p j k = returned c t p.left
    retries next (err e, t) p j k =
        retried (caught_as is_retryable e) next e t (j t p.left) (λ last. k last t p.left)

    pub attempts_with :
        {A : String → Held T E.World → Type 0} (last : Option DeixicError)
        (next : Option DeixicError → Act T E.World Credential)
        (r : Result Raised String × Held T E.World)
        → Post A J r
        → ((a : String) (t : Held T E.World)
            → A a t
            → Post Q J (or_retry T E settings next (exchange_once T E settings a t)))
        → Post Q J (attempt_with T E settings last next r)
    attempts_with last next (ok a, t) p k = k a t p.left
    attempts_with last next (err e, t) p k = raised _ t p.left
