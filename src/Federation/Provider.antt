-- ===== src/Federation/Provider.antt =====
-- federation.py: `WorkloadFederationCredentialProvider`.
pub mod Exchange
pub mod Methods
pub mod Steps
pub mod Once
pub mod Cache
use Prim.Native.Char.{Char, code}
use Prim.Native.String.{String as Text}
use deixic_python.Base.{
  ℕ, zero, suc, ◌-◌, String, ◌<>◌, Bool, true, false, not, ◌||◌, ◌&&◌, Option, none, some, List, [],
  ◌∷◌, ◌++◌, ◌==◌, any, length, drop, text_eq, is_empty, strip, if◌then◌else◌, Result, ok, err,
  Action, pure, raise, gets, ◌>>=◌, ◌>>◌,
}
use deixic_python.Base.Fallible
use deixic_python.Base.Int.{ℤ, pos}
use deixic_python.Value.{Value, Fields, as_text, as_dict}
use deixic_python.Errors.{
  DeixicError, authentication, transport, validation_error, Content, Response,
}
use deixic_python.Auth.{Credential}
use deixic_python.Tasks.Types.{Raised, deixic, foreign}
use deixic_python.Tasks.Platform.{Call}
use deixic_python.Tasks.Checks.{positive}
use deixic_python.Client.{SplitUrl, raised_by}
use deixic_python.Client.Network.{HttpRequest, Reply, is_success}
use deixic_python.Federation.{
  exchange_path, remembered_assertions, reused_code, unavailable_code, transport_code, has_code,
  is_retryable, is_tolerated, coded_error, assertion_unavailable, invalid_response, exchange_error,
  field_text, scopes_of, non_negative, is_attempts, validated_identity_url,
}

-- Floats as times and spans, with the operations that the source uses; `doubled n x` is `x * 2 ** n`.
pub record Seconds : Type 1 where
  pub Time : Type 0
  pub zero_time : Time
  pub add : Time → Time → Time
  pub sub : Time → Time → Time
  pub max_time : Time → Time → Time
  pub half : Time → Time
  pub doubled : ℕ → Time → Time
  pub before : Time → Time → Bool

-- What the provider calls: the assertion source, the transport, the clock and `sleep`; `json.loads` on
-- decoded bytes, `json.dumps` of the body, SHA-256, and `datetime` (a moment without a zone is naive).
pub record Surroundings (T : Seconds) : Type 1 where
  pub World : Type 0
  pub source : Call World Value
  pub exchange : HttpRequest → Call World Reply
  pub close : Reply → World → World
  pub clock : World → T.Time × World
  pub sleep : T.Time → World → World
  pub json_loads : List ℕ → Option Value
  pub dumps : String → List ℕ
  pub sha256 : String → String
  pub Moment : Type 0
  pub fromisoformat : String → Option Moment
  pub is_naive : Moment → Bool
  pub in_utc : Moment → Moment
  pub timestamp : Moment → T.Time

-- The arguments of the constructor, as they are kept.
pub record Settings (T : Seconds) : Type 0 where
  pub exchange_url : String
  pub refresh_margin : T.Time
  pub timeout : ℕ
  pub retry_delay : T.Time
  pub max_attempts : ℕ

-- The fields of the provider that change. The deque has its oldest digest first.
pub record Provider (T : Seconds) : Type 0 where
  pub credential : Option Credential
  pub refresh_at : T.Time
  pub expires_at : T.Time
  pub used_assertions : List String

abbrev pub new_provider : (T : Seconds) → Provider T
new_provider T = record {
  credential = none;
  refresh_at = T.zero_time;
  expires_at = T.zero_time;
  used_assertions = [];
}

-- `max_attempts` as a number; the constructor takes one from 1 to 10.
abbrev pub attempts_of : Value → ℕ
attempts_of (Value.int (pos n)) = n
attempts_of _ = 1

-- `WorkloadFederationCredentialProvider.__init__`, given what its numbers are as floats
unfoldable pub make_settings :
    (T : Seconds)
    → (Value → T.Time)
    → (Value → ℕ)
    → (String → Option SplitUrl)
    → Value
    → Value
    → Value
    → Value
    → Value
    → Result Raised (Settings T)
make_settings T to_float to_timeout urlsplit identity_url refresh_margin timeout max_attempts
      retry_delay =
    Fallible.◌>>=◌ (validated_identity_url urlsplit identity_url) λ url.
      Fallible.◌>>=◌ (raised_by (non_negative refresh_margin "refresh_margin")) λ _.
        Fallible.◌>>=◌ (raised_by (positive timeout "timeout")) λ _.
          Fallible.◌>>=◌ (raised_by (non_negative retry_delay "retry_delay")) λ _.
            if is_attempts max_attempts
            then ok (record {
              exchange_url = url <> exchange_path;
              refresh_margin = to_float refresh_margin;
              timeout = to_timeout timeout;
              retry_delay = to_float retry_delay;
              max_attempts = attempts_of max_attempts;
            })
            else err (deixic (validation_error "max_attempts must be an integer between 1 and 10"))

-- A provider and the world around it.
pub record Held (T : Seconds) (World : Type 0) : Type 0 where
  pub provider : Provider T
  pub world : World

abbrev pub Act : (T : Seconds) → Type 0 → Type 0 → Type 0
Act T World A = Action (Held T World) Raised A

module _ {T : Seconds} {World : Type 0} where
  abbrev pub outside : {A : Type 0} → Call World A → Act T World A
  outside m s = let (r, w) = m s.world in (r, record s { world = w })

  abbrev pub outward : (World → World) → Act T World (Unit {0})
  outward f s = (ok tt, record s { world = f s.world })

  abbrev pub reading : (World → T.Time × World) → Act T World T.Time
  reading f s = let (now, w) = f s.world in (ok now, record s { world = w })

  abbrev pub checked : {A : Type 0} → Result DeixicError A → Act T World A
  checked (ok a) s = (ok a, s)
  checked (err e) s = (err (deixic e), s)

-- What becomes of an exception of the assertion source.
abbrev pub as_assertion : {A : Type 0} → Result Raised A → Result Raised A
as_assertion (ok v) = ok v
as_assertion (err (deixic e)) = err (deixic e)
as_assertion (err e) = err (deixic (assertion_unavailable "workload assertion source failed"))

-- The text of an assertion, trimmed.
unfoldable pub assertion_text : Value → Result DeixicError String
assertion_text v =
    let refused : Result DeixicError String =
      err (assertion_unavailable "workload assertion source returned an empty assertion") in
    elim (as_text (some v)) [
      | none ↦ refused
      | some s ↦ if is_empty (strip s) then refused else ok (strip s)
    ]

abbrev pub is_used : String → List String → Bool
is_used digest used = any (text_eq digest) used

-- `append` on a deque that holds at most 16 items
unfoldable pub remember : String → List String → List String
remember digest used =
    let extended = used ++ digest ∷ [] in drop (length extended - remembered_assertions) extended

unfoldable pub reused : DeixicError
reused =
    coded_error
      "workload assertion source returned an assertion that was already exchanged; Identity accepts each assertion once"
      authentication reused_code

module _ (T : Seconds) (E : Surroundings T) where
  -- The test of an assertion against the digests of the last ones, which it joins.
  unfoldable pub claim_assertion : String → Act T E.World String
  claim_assertion assertion s =
      let digest = E.sha256 assertion in
      if is_used digest s.provider.used_assertions then (err (deixic reused), s) else (
        ok assertion,
        record s {
          provider = record s.provider {
            used_assertions = remember digest s.provider.used_assertions;
          };
        },
      )

  -- `_next_assertion`
  unfoldable pub next_assertion : Act T E.World String
  next_assertion = do
    v ← outside (λ w. let (r, u) = E.source w in (as_assertion r, u))
    assertion ← checked (assertion_text v)
    claim_assertion assertion
