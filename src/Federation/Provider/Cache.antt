-- ===== src/Federation/Provider/Cache.antt =====
-- Which credential the provider hands out, and for how long.
pub mod Handed
pub mod Replaced
pub mod Available
use deixic_python.Base.{
  ℕ, zero, suc, ◌+◌, ◌-◌, ◌≤◌, String, Bool, true, false, ◌&&◌, ◌≡◌, refl, sym, ap, ◌∙◌, subst, ◌⊎◌,
  inl, inr, Option, none, some, List, [], ◌∷◌, ◌++◌, length, length-drop, drop, arith, Result, ok,
  err, Bool-cases,
}
use deixic_python.Base.Post.{Post, returned, raised, Post-ok, Post-err, Post-state, Post-weaken}
use deixic_python.Errors.{DeixicError}
use deixic_python.Auth.{Credential}
use deixic_python.Tasks.Types.{Raised}
use deixic_python.Federation.{remembered_assertions, is_tolerated}
use deixic_python.Federation.Provider.{
  Seconds, Surroundings, Settings, Provider, Held, remember, next_assertion,
}
use deixic_python.Federation.Provider.Exchange.{
  caught_as, store, exchange_once, pause, attempts, exchange,
}
use deixic_python.Federation.Provider.Methods.{
  kept, or_cached, get_cached, get_at, get_credential, replaced, refresh_unless, refresh_from,
  refresh_credential,
}
use deixic_python.Federation.Provider.Steps.{asserts, exchanges, retries, attempts_with}

-- Not after: what `not b < a` says of times.
abbrev pub Until : (T : Seconds) → T.Time → T.Time → Type 0
Until T a b = T.before b a ≡ false

-- What the source relies on of floating-point seconds, whose operations round monotonically.
pub record Laws (T : Seconds) : Type 0 where
  pub add-Until : (t x y : T.Time) → Until T x y → Until T (T.add t x) (T.add t y)
  pub sub-Until : (x m : T.Time) → Until T T.zero_time m → Until T (T.sub x m) x
  pub half-Until : (x : T.Time) → Until T T.zero_time x → Until T (T.half x) x
  pub max_time-Until : (x y z : T.Time) → Until T x z → Until T y z → Until T (T.max_time x y) z
  pub zero-Until : (x : T.Time) → Until T T.zero_time (T.max_time T.zero_time x)
  pub before-Until : (t a b : T.Time) → T.before t a ≡ true → Until T a b → T.before t b ≡ true

-- A provider's credential is exchanged again no later than it expires, and 16 digests are remembered
-- at most.
pub record IsProvider (T : Seconds) (p : Provider T) : Type 0 where
  pub refreshed_in_time : Until T p.refresh_at p.expires_at
  pub used_bound : length p.used_assertions ≤ 16

-- The same credential, with the same times.
pub record SameCache (T : Seconds) (p q : Provider T) : Type 0 where
  pub same_credential : q.credential ≡ p.credential
  pub same_refresh : q.refresh_at ≡ p.refresh_at
  pub same_expiry : q.expires_at ≡ p.expires_at

length-remember : (d : String) (used : List String) → length (remember d used) ≤ 16
unfolding remember
length-remember d used =
    let extended = used ++ d ∷ [] in
    omega (arith, length-drop (length extended - remembered_assertions) extended)

module _ (T : Seconds) (E : Surroundings T) (settings : Settings T) (laws : Laws T)
    (margin : Until T T.zero_time settings.refresh_margin) where
  store-IsProvider :
      (c : Credential) (expiry now : T.Time) (p : Provider T)
      → length p.used_assertions ≤ 16
      → IsProvider T (store T E settings c expiry now p)
  unfolding store
  store-IsProvider c expiry now p h =
      let lifetime = T.max_time T.zero_time (T.sub expiry now) in
      record {
        refreshed_in_time = laws.add-Until now _ lifetime (
            laws.max_time-Until _ _ lifetime
              (laws.sub-Until lifetime settings.refresh_margin margin)
              (laws.half-Until lifetime (laws.zero-Until (T.sub expiry now))));
        used_bound = h;
      }

  store-credential :
      (c : Credential) (expiry now : T.Time) (p : Provider T)
      → (store T E settings c expiry now p).credential ≡ some c
  unfolding store
  store-credential c expiry now p = refl

  -- A returned credential is the cached one.
  abbrev Stored : Credential → Held T E.World → Type 0
  Stored c t = (t.provider.credential ≡ some c) × IsProvider T t.provider

  -- A failure leaves the cache as it was.
  abbrev Kept : Provider T → Held T E.World → Type 0
  Kept p t = SameCache T p t.provider × IsProvider T t.provider

  attempts-Post :
      (remaining attempt : ℕ) (last : Option DeixicError) (p : Provider T) (s : Held T E.World)
      → Kept p s
      → Post Stored (Kept p) (attempts T E settings remaining attempt last s)
  unfolding attempts
  attempts-Post zero attempt last p s k = raised _ s k
  attempts-Post (suc remaining) attempt last p s (same, ok_provider) =
      attempts_with T E settings {A = λ a t. Kept p t} last
        (attempts T E settings remaining (suc attempt)) _
        (asserts T E settings (record s { world = pause T E settings attempt last s.world })
          (λ a new. (
            record {
              same_credential = same.same_credential;
              same_refresh = same.same_refresh;
              same_expiry = same.same_expiry;
            },
            record {
              refreshed_in_time = ok_provider.refreshed_in_time;
              used_bound = length-remember (E.sha256 a) s.provider.used_assertions;
            },
          ))
          (same, ok_provider))
        λ a t kept_t.
          retries T E settings {M = Kept p} (attempts T E settings remaining (suc attempt)) _
            (exchanges T E settings a t (
              kept_t,
              (λ reply. kept_t),
              (λ reply c expiry. (
                store-credential c expiry _ t.provider,
                store-IsProvider c expiry _ t.provider kept_t.1.used_bound,
              )),
            ))
            (λ u k. k) (λ next u k. attempts-Post remaining (suc attempt) next p u k)

  pub same-SameCache : (p : Provider T) → SameCache T p p
  same-SameCache p = record { same_credential = refl; same_refresh = refl; same_expiry = refl }

  pub exchange-Post :
      (s : Held T E.World)
      → IsProvider T s.provider
      → Post Stored (Kept s.provider) (exchange T E settings s)
  unfolding exchange
  exchange-Post s h =
      attempts-Post settings.max_attempts 0 none s.provider s (same-SameCache s.provider, h)
