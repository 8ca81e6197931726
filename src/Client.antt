-- ===== src/Client.antt =====
-- client.py: the checks of the client's arguments, and what a client is fixed to.
pub mod Network
pub mod Resources
pub mod Tasks
use Prim.Native.Char.{Char, code}
use Prim.Native.String.{String as Text}
use deixic_python.Base.{
  ℕ, ◌*◌, ◌^◌, String, ◌<>◌, Bool, true, false, not, ◌||◌, ◌&&◌, Option, none, some, ◌==◌, leb,
  text_eq, is_empty, truthy, strip, if◌then◌else◌, Result, ok, err,
}
use deixic_python.Base.Fallible.{◌>>=◌, ◌>>◌}
use deixic_python.Base.Int.{ℤ, pos, leb_ℤ}
use deixic_python.Base.Decimal.{str_ℕ}
use deixic_python.Value.{Value, Float, finite, as_text}
use deixic_python.Errors.{DeixicError, validation_error, or_default}
use deixic_python.Auth.{Credential, Identity, fresh, static_credential}
use deixic_python.Tasks.Types.{Raised, deixic, value_error}
use deixic_python.Tasks.Checks.{is_positive}

-- `value.strip() if isinstance(value, str) else ""`
abbrev pub stripped : Value → String
stripped v = elim (as_text (some v)) [ none ↦ "" | some s ↦ strip s ]

-- `_required`
unfoldable pub required : Value → String → Result DeixicError String
required v field =
    if is_empty (stripped v)
    then err (validation_error (field <> " is required"))
    else ok (stripped v)

-- The test of `_bounded_int`: an integer that is no bool, within the bounds.
abbrev pub is_bounded : ℕ → ℕ → Value → Bool
is_bounded minimum maximum (Value.int n) = leb_ℤ (pos minimum) n && leb_ℤ n (pos maximum)
is_bounded minimum maximum _ = false

-- `_bounded_int`, with the integer
unfoldable pub bounded_int : Value → String → ℕ → ℕ → Result DeixicError (Unit {0})
bounded_int v field minimum maximum =
    if is_bounded minimum maximum v
    then ok tt
    else err (
        validation_error
          (field <> " must be an integer between " <> str_ℕ minimum <> " and " <> str_ℕ maximum))

-- `s.rstrip("/")`
abbrev trim_slash : Char → String → String
trim_slash c rest = if code c == b'/' && is_empty rest then Text.[] else Text.◌∷◌ c rest

unfoldable pub rstrip_slash : String → String
rstrip_slash Text.[] = Text.[]
rstrip_slash (Text.◌∷◌ c s) = trim_slash c (rstrip_slash s)

-- The parts of a URL that the source reads; a user name or a password that is not there reads as "".
pub record SplitUrl : Type 0 where
  pub scheme : String
  pub netloc : String
  pub username : String
  pub password : String
  pub query : String
  pub fragment : String

abbrev pub is_absolute : SplitUrl → Bool
is_absolute u = (text_eq u.scheme "http" || text_eq u.scheme "https") && truthy u.netloc

abbrev pub has_extras : SplitUrl → Bool
has_extras u = truthy u.username || truthy u.password || truthy u.query || truthy u.fragment

-- The tests on the parts of a URL, with the text that is handed back.
unfoldable pub checked_url : String → String → SplitUrl → Result DeixicError String
checked_url field cleaned u =
    if not (is_absolute u)
    then err (validation_error (field <> " must be an absolute HTTP(S) URL"))
    else if has_extras u
    then err (validation_error (field <> " must not contain credentials, a query, or a fragment"))
    else ok cleaned

-- Python's numbers as seconds, in billionths; 0 for what is no positive finite number.
abbrev pub billion : ℕ
billion = 10 ^ 9

unfoldable pub billionths : Value → ℕ
billionths (Value.int (pos n)) = n * billion
billionths (Value.float (finite (pos n))) = n
billionths _ = 0

-- What a client is fixed to.
pub record Config : Type 0 where
  pub organization_id : String
  pub workspace_id : String
  pub base_url : String
  pub timeout : ℕ

abbrev pub raised_by : {A : Type 0} → Result DeixicError A → Result Raised A
raised_by (ok a) = ok a
raised_by (err e) = err (deixic e)

-- `urlsplit`; none where it raises its `ValueError`.
module _ (urlsplit : String → Option SplitUrl) where
  unfoldable pub split_url : String → String → Result Raised String
  split_url field cleaned = elim (urlsplit cleaned) [
    | none ↦ err value_error
    | some u ↦ raised_by (checked_url field cleaned u)
  ]

  -- `_validated_base_url`
  unfoldable pub validated_base_url : Value → Result Raised String
  validated_base_url v =
      raised_by (required v "base_url") >>= λ s. split_url "base_url" (rstrip_slash s)

  -- The credential of the static provider, where a key is given and no provider is.
  unfoldable pub provided : Option String → Bool → Result DeixicError (Option Credential)
  provided api_key has_provider =
      let key = or_default api_key "" in
      if truthy key
      then (if has_provider
          then err
              (validation_error "provide exactly one of \"api_key\" or \"credential_provider\"")
          else static_credential key >>= λ c. ok (some c))
      else if has_provider
      then ok none
      else err (validation_error "provide exactly one of \"api_key\" or \"credential_provider\"")

  -- The test of the constructor on a timeout.
  unfoldable pub checked_timeout : Value → Result DeixicError ℕ
  checked_timeout v =
      if is_positive v
      then ok (billionths v)
      else err (validation_error "timeout must be a positive finite number")

  -- `Deixic.__init__`: what the client is fixed to, the credential of a static key, and the identity
  -- that the client's credentials are held to.
  unfoldable pub make_client :
      Value
      → Value
      → Option String
      → Bool
      → Value
      → Value
      → Result Raised (Config × Option Credential × Identity)
  make_client organization workspace api_key has_provider base_url timeout =
      raised_by (required organization "organization_id") >>= λ organization_id.
      raised_by (required workspace "workspace_id") >>= λ workspace_id.
      raised_by (provided api_key has_provider) >>= λ key. validated_base_url base_url >>= λ url.
      raised_by (checked_timeout timeout) >>= λ seconds. ok (
        record {
          organization_id = organization_id;
          workspace_id = workspace_id;
          base_url = url;
          timeout = seconds;
        },
        key,
        fresh organization_id workspace_id,
      )
