-- ===== src/Federation/Provider/Cache/Replaced.antt =====
-- What `refresh_credential` hands out.
use deixic_python.Base.{
  Bool, true, false, ◌≡◌, refl, ◌⊎◌, inl, inr, Option, none, some, Result, ok, err, text_eq,
}
use deixic_python.Base.Post.{Post, returned, raised, Post-ok}
use deixic_python.Auth.{Credential}
use deixic_python.Tasks.Types.{Raised}
use deixic_python.Federation.Provider.{Seconds, Surroundings, Settings, Provider, Held}
use deixic_python.Federation.Provider.Exchange.{exchange}
use deixic_python.Federation.Provider.Methods.{
  replaced, refresh_unless, refresh_from, refresh_credential,
}
use deixic_python.Federation.Provider.Cache.{
  Until, Laws, IsProvider, SameCache, exchange-Post, same-SameCache,
}
use deixic_python.Federation.Provider.Cache.Handed.{ticked}

module _ (T : Seconds) (E : Surroundings T) (settings : Settings T) (laws : Laws T)
    (margin : Until T T.zero_time settings.refresh_margin) where
  abbrev Kept : Provider T → Held T E.World → Type 0
  Kept p t = SameCache T p t.provider × IsProvider T t.provider

  -- What `refresh_credential` returns.
  abbrev pub Replaced : Held T E.World → Credential → Credential → Held T E.World → Type 0
  Replaced s current c t =
      (t.provider.credential ≡ some c)
      × IsProvider T t.provider
      × ((SameCache T s.provider t.provider
            × (text_eq c.access_token current.access_token ≡ false)
            × (T.before (E.clock s.world).0 s.provider.refresh_at ≡ true))
          ⊎ ((exchange T E settings s ≡ (ok c, t))
              ⊎ (exchange T E settings (ticked E s) ≡ (ok c, t))))

  fresh-Post :
      (s : Held T E.World) (current : Credential) (r : Result Raised Credential × Held T E.World)
      → ((c : Credential) (t : Held T E.World)
          → r ≡ (ok c, t)
          → (exchange T E settings s ≡ (ok c, t))
            ⊎ (exchange T E settings (ticked E s) ≡ (ok c, t)))
      → Post (λ c t. (t.provider.credential ≡ some c) × IsProvider T t.provider) (Kept s.provider) r
      → Post (Replaced s current) (Kept s.provider) r
  fresh-Post s current (ok c, t) f p = returned c t (p.left.0, p.left.1, inr (f c t refl))
  fresh-Post s current (err x, t) f p = raised x t p.left

  replaced-Post :
      (s : Held T E.World) (early : Bool) (cached current : Credential)
      → IsProvider T s.provider
      → s.provider.credential ≡ some cached
      → text_eq cached.access_token current.access_token ≡ false
      → T.before (E.clock s.world).0 s.provider.refresh_at ≡ early
      → Post
          (Replaced s current)
          (Kept s.provider)
          (replaced T E settings early cached (ticked E s))
  replaced-Post s true cached current good h differ e =
      returned cached _
        (h, good, inl (same-SameCache T E settings laws margin s.provider, differ, e))
  replaced-Post s false cached current good h differ e =
      fresh-Post s current (exchange T E settings (ticked E s)) (λ c t q. inr q)
        (exchange-Post T E settings laws margin (ticked E s) good)

  refresh_unless-Post :
      (s : Held T E.World) (same : Bool) (cached current : Credential)
      → IsProvider T s.provider
      → s.provider.credential ≡ some cached
      → text_eq cached.access_token current.access_token ≡ same
      → Post (Replaced s current) (Kept s.provider) (refresh_unless T E settings same cached s)
  refresh_unless-Post s true cached current good h e =
      fresh-Post s current (exchange T E settings s) (λ c t q. inl q)
        (exchange-Post T E settings laws margin s good)
  refresh_unless-Post s false cached current good h e =
      replaced-Post s _ cached current good h e refl

  refresh_from-Post :
      (s : Held T E.World) (o : Option Credential) (current : Credential)
      → IsProvider T s.provider
      → s.provider.credential ≡ o
      → Post (Replaced s current) (Kept s.provider) (refresh_from T E settings o current s)
  refresh_from-Post s none current good h =
      fresh-Post s current (exchange T E settings s) (λ c t q. inl q)
        (exchange-Post T E settings laws margin s good)
  refresh_from-Post s (some cached) current good h =
      refresh_unless-Post s _ cached current good h refl

  refresh_credential-Post :
      (s : Held T E.World) (current : Credential)
      → IsProvider T s.provider
      → Post (Replaced s current) (Kept s.provider) (refresh_credential T E settings current s)
  unfolding refresh_credential
  refresh_credential-Post s current good =
      refresh_from-Post s s.provider.credential current good refl

  -- A credential that `refresh_credential` returns is the cached one; without an exchange it has
  -- another token than the rejected one, and the clock is before the moment of its refresh, so that a
  -- rejected token is only handed out again where an exchange has just returned it. The provider's
  -- refresh is due no later than its credential expires and it remembers 16 digests at most, before
  -- the call and behind it; the margin of the settings is not negative, and the operations on seconds
  -- have the laws of floats.
  pub refresh_credential-Replaced :
      (s t : Held T E.World) (current c : Credential)
      → IsProvider T s.provider
      → refresh_credential T E settings current s ≡ (ok c, t)
      → (t.provider.credential ≡ some c)
        × IsProvider T t.provider
        × ((SameCache T s.provider t.provider
              × (text_eq c.access_token current.access_token ≡ false)
              × (T.before (E.clock s.world).0 s.provider.refresh_at ≡ true))
            ⊎ ((exchange T E settings s ≡ (ok c, t))
                ⊎ (exchange T E settings (ticked E s) ≡ (ok c, t))))
  refresh_credential-Replaced s t current c good h =
      Post-ok (refresh_credential T E settings current s) h (refresh_credential-Post s current good)
