-- ===== src/Federation/Provider/Cache/Handed.antt =====
-- What `get_credential` hands out.
use deixic_python.Base.{
  Bool, true, false, ◌&&◌, ◌≡◌, refl, ◌∙◌, ◌⊎◌, inl, inr, Option, none, some, arith, Result, ok,
  err,
}
use deixic_python.Base.Post.{Post, returned, raised, Post-ok, Post-err}
use deixic_python.Auth.{Credential}
use deixic_python.Tasks.Types.{Raised}
use deixic_python.Federation.Provider.{Seconds, Surroundings, Settings, Provider, Held}
use deixic_python.Federation.Provider.Exchange.{exchange}
use deixic_python.Federation.Provider.Methods.{kept, or_cached, get_cached, get_at, get_credential}
use deixic_python.Federation.Provider.Cache.{
  Until, Laws, IsProvider, SameCache, exchange-Post, same-SameCache,
}

and_left : (a b : Bool) → (a && b) ≡ true → a ≡ true
and_left a b h = ground arith

-- The state after a reading of the clock.
abbrev pub ticked : {T : Seconds} (E : Surroundings T) → Held T E.World → Held T E.World
ticked E s = record s { world = (E.clock s.world).1 }

module _ (T : Seconds) (E : Surroundings T) (settings : Settings T) (laws : Laws T)
    (margin : Until T T.zero_time settings.refresh_margin) where
  -- A credential that is handed out is the cached one: one that was cached and has not expired by the
  -- clock, with its times as they were, or one that an exchange has just stored.
  abbrev pub Handed : Held T E.World → Credential → Held T E.World → Type 0
  Handed s c t =
      (t.provider.credential ≡ some c)
      × IsProvider T t.provider
      × ((SameCache T s.provider t.provider
            × (T.before (E.clock s.world).0 s.provider.expires_at ≡ true))
          ⊎ (exchange T E settings (ticked E s) ≡ (ok c, t)))

  abbrev Kept : Provider T → Held T E.World → Type 0
  Kept p t = SameCache T p t.provider × IsProvider T t.provider

  kept-Post :
      (s : Held T E.World) (b : Bool) (cached : Credential) (e : Raised) (t : Held T E.World)
      → s.provider.credential ≡ some cached
      → Kept s.provider t
      → (b ≡ true → T.before (E.clock s.world).0 s.provider.expires_at ≡ true)
      → Post (Handed s) (Kept s.provider) (kept T E settings b cached e t)
  kept-Post s true cached e t h (same, good) unexpired =
      returned cached t (same.same_credential ∙ h, good, inl (same, unexpired refl))
  kept-Post s false cached e t h k unexpired = raised e t k

  exchanged-Post :
      (s : Held T E.World) (r : Result Raised Credential × Held T E.World)
      → exchange T E settings (ticked E s) ≡ r
      → Post (λ c t. (t.provider.credential ≡ some c) × IsProvider T t.provider) (Kept s.provider) r
      → Post (Handed s) (Kept s.provider) r
  exchanged-Post s (ok c, t) e p = returned c t (p.left.0, p.left.1, inr e)
  exchanged-Post s (err x, t) e p = raised x t p.left

  or_cached-Post :
      (s : Held T E.World) (cached : Credential) (r : Result Raised Credential × Held T E.World)
      → s.provider.credential ≡ some cached
      → Post (Handed s) (Kept s.provider) r
      → Post
          (Handed s)
          (Kept s.provider)
          (or_cached T E settings cached (T.before (E.clock s.world).0 s.provider.expires_at) r)
  or_cached-Post s cached (ok c, t) h p = p
  or_cached-Post s cached (err x, t) h p = kept-Post s _ cached x t h p.left (and_left _ _)

  get_cached-Post :
      (s : Held T E.World) (early : Bool) (cached : Credential)
      → IsProvider T s.provider
      → s.provider.credential ≡ some cached
      → T.before (E.clock s.world).0 s.provider.refresh_at ≡ early
      → Post (Handed s) (Kept s.provider) (
          get_cached T E settings early
            (T.before (E.clock s.world).0 s.provider.expires_at)
            cached
            (ticked E s))
  get_cached-Post s true cached good h e = returned cached _ (
    h,
    good,
    inl (
      same-SameCache T E settings laws margin s.provider,
      laws.before-Until _ _ _ e good.refreshed_in_time,
    ),
  )
  get_cached-Post s false cached good h e =
      or_cached-Post s cached (exchange T E settings (ticked E s)) h
        (exchanged-Post s _ refl (exchange-Post T E settings laws margin (ticked E s) good))

  get_at-Post :
      (s : Held T E.World) (o : Option Credential)
      → IsProvider T s.provider
      → s.provider.credential ≡ o
      → Post (Handed s) (Kept s.provider) (get_at T E settings o (E.clock s.world).0 (ticked E s))
  get_at-Post s none good h =
      exchanged-Post s _ refl (exchange-Post T E settings laws margin (ticked E s) good)
  get_at-Post s (some cached) good h = get_cached-Post s _ cached good h refl

  get_credential-Post :
      (s : Held T E.World)
      → IsProvider T s.provider
      → Post (Handed s) (Kept s.provider) (get_credential T E settings s)
  unfolding get_credential
  get_credential-Post s good = get_at-Post s s.provider.credential good refl

  -- A credential that `get_credential` returns is the cached one, and it is either one that was cached
  -- before, with its times unchanged, and that the clock's reading is still before the expiry of, or
  -- one that an exchange has just stored. Where the provider's refresh is due no later than its
  -- credential expires and it remembers 16 digests at most, this holds behind the call too. The
  -- margin of the settings is not negative, and the operations on seconds have the laws of floats.
  pub get_credential-Handed :
      (s t : Held T E.World) (c : Credential)
      → IsProvider T s.provider
      → get_credential T E settings s ≡ (ok c, t)
      → (t.provider.credential ≡ some c)
        × IsProvider T t.provider
        × ((SameCache T s.provider t.provider
              × (T.before (E.clock s.world).0 s.provider.expires_at ≡ true))
            ⊎ (exchange T E settings (ticked E s) ≡ (ok c, t)))
  get_credential-Handed s t c good h =
      Post-ok (get_credential T E settings s) h (get_credential-Post s good)

  -- A call of `get_credential` that raises leaves the cached credential and its times as they were,
  -- and the provider's refresh due no later than its credential expires, as it was before, with 16
  -- remembered digests at most. The margin of the settings is not negative, and the operations on
  -- seconds have the laws of floats.
  pub get_credential-SameCache :
      (s t : Held T E.World) (e : Raised)
      → IsProvider T s.provider
      → get_credential T E settings s ≡ (err e, t)
      → SameCache T s.provider t.provider × IsProvider T t.provider
  get_credential-SameCache s t e good h =
      Post-err (get_credential T E settings s) h (get_credential-Post s good)
