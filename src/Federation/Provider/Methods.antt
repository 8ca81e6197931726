-- ===== src/Federation/Provider/Methods.antt =====
-- federation.py: `get_credential` and `refresh_credential`.
use deixic_python.Base.{
  Bool, true, false, ◌&&◌, Option, none, some, text_eq, Result, ok, err, pure, raise,
}
use deixic_python.Auth.{Credential}
use deixic_python.Tasks.Types.{Raised}
use deixic_python.Federation.{is_tolerated}
use deixic_python.Federation.Provider.{Seconds, Surroundings, Settings, Held, Act}
use deixic_python.Federation.Provider.Exchange.{caught_as, exchange}

module _ (T : Seconds) (E : Surroundings T) (settings : Settings T) where
  -- What `get_credential` does with an exception of the exchange.
  abbrev pub kept : Bool → Credential → Raised → Act T E.World Credential
  kept true cached e = pure cached
  kept false cached e = raise e

  abbrev pub or_cached :
      Credential
      → Bool
      → Result Raised Credential × Held T E.World
      → Result Raised Credential × Held T E.World
  or_cached cached unexpired (ok c, s) = (ok c, s)
  or_cached cached unexpired (err e, s) = kept (unexpired && caught_as is_tolerated e) cached e s

  -- `get_credential`, of whether the cached credential is in use still and whether it has not expired
  abbrev pub get_cached : Bool → Bool → Credential → Act T E.World Credential
  get_cached true unexpired cached s = (ok cached, s)
  get_cached false unexpired cached s = or_cached cached unexpired (exchange T E settings s)

  abbrev pub get_at : Option Credential → T.Time → Act T E.World Credential
  get_at none now s = exchange T E settings s
  get_at (some cached) now s =
      get_cached (T.before now s.provider.refresh_at) (T.before now s.provider.expires_at) cached s

  -- `get_credential`
  unfoldable pub get_credential : Act T E.World Credential
  get_credential s =
      get_at s.provider.credential (E.clock s.world).0 (record s { world = (E.clock s.world).1 })

  -- `refresh_credential`, of whether the cached credential is in use still
  abbrev pub replaced : Bool → Credential → Act T E.World Credential
  replaced true cached = pure cached
  replaced false cached = exchange T E settings

  -- The clock is read where the cached credential differs from the rejected one.
  abbrev pub refresh_unless : Bool → Credential → Act T E.World Credential
  refresh_unless true cached s = exchange T E settings s
  refresh_unless false cached s =
      replaced (T.before (E.clock s.world).0 s.provider.refresh_at) cached
        (record s { world = (E.clock s.world).1 })

  abbrev pub refresh_from : Option Credential → Credential → Act T E.World Credential
  refresh_from none current s = exchange T E settings s
  refresh_from (some cached) current s =
      refresh_unless (text_eq cached.access_token current.access_token) cached s

  -- `refresh_credential`
  unfoldable pub refresh_credential : Credential → Act T E.World Credential
  refresh_credential current s = refresh_from s.provider.credential current s
