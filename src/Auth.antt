-- ===== src/Auth.antt =====
-- auth.py: credentials, the static provider, and the identity that one client is held to.
pub mod Headers
pub mod Stability
pub mod Refresh
use Prim.Native.Char.{Char, code}
use Prim.Native.String.{String as Text}
use deixic_python.Base.{
  ℕ, String, Bool, true, false, not, ◌||◌, ◌&&◌, Option, none, some, List, [], ◌∷◌, ltb, leb, ◌==◌,
  text_eq, is_empty, truthy, strip, if◌then◌else◌, Result, ok, err, all, any, ◌≡◌, arith,
}
use deixic_python.Errors.{DeixicError, authentication_error, validation_error}

-- `class Credential`
pub record Credential : Type 0 where
  pub access_token : String
  pub token_type : String
  pub subject : Option String
  pub organization_id : Option String
  pub workspace_id : Option String
  pub scopes : List String

-- `StaticCredentialProvider(token)`: the credential that both of its methods hand out
unfoldable pub static_credential : String → Result DeixicError Credential
unfolding strip
static_credential token =
    let cleaned = strip token in
    if is_empty cleaned
    then err (validation_error "api_key must be non-empty")
    else ok (record {
      access_token = cleaned;
      token_type = "Bearer";
      subject = none;
      organization_id = none;
      workspace_id = none;
      scopes = [];
    })

-- The state of `CredentialIdentity`. `scopes` is a frozenset: its order is never read.
pub record Identity : Type 0 where
  pub organization_id : String
  pub workspace_id : String
  pub subject : Option String
  pub scopes : Option (List String)
  pub declared_organization : Bool
  pub declared_workspace : Bool

-- `CredentialIdentity(organization_id, workspace_id)`
abbrev pub fresh : String → String → Identity
fresh organization_id workspace_id = record {
  organization_id = organization_id;
  workspace_id = workspace_id;
  subject = none;
  scopes = none;
  declared_organization = false;
  declared_workspace = false;
}

-- `_clean`
unfoldable pub clean : Option String → Option String
unfolding strip
clean none = none
clean (some value) = let cleaned = strip value in if is_empty cleaned then none else some cleaned

-- `ord(char) < 0x20 or ord(char) == 0x7F`
unfoldable pub is_control : Char → Bool
is_control c = ltb (code c) 0x20 || code c == 0x7f

unfoldable pub has_control : String → Bool
unfolding is_control
has_control Text.[] = false
has_control (Text.◌∷◌ c s) = is_control c || has_control s

-- A character of `_HTTP_TOKEN`.
unfoldable pub is_token_char : Char → Bool
is_token_char c =
    let n = code c in
    n == b'!'
    || (leb b'#' n && leb n b'\'')
    || n == b'*'
    || n == b'+'
    || n == b'-'
    || n == b'.'
    || (leb b'0' n && leb n b'9')
    || (leb b'A' n && leb n b'Z')
    || (leb b'^' n && leb n b'z')
    || n == b'|'
    || n == b'~'

unfoldable pub all_token_chars : String → Bool
unfolding is_token_char
all_token_chars Text.[] = true
all_token_chars (Text.◌∷◌ c s) = is_token_char c && all_token_chars s

-- `_HTTP_TOKEN.fullmatch(s)`
unfoldable pub is_http_token : String → Bool
unfolding all_token_chars
is_http_token s = truthy s && all_token_chars s

abbrev pub contains : List String → String → Bool
contains xs x = any (text_eq x) xs

-- Equality of frozensets.
unfoldable pub same_set : List String → List String → Bool
unfolding all any
same_set xs ys = all (contains ys) xs && all (contains xs) ys

-- `frozenset(scope.strip() for scope in scopes if scope.strip())`
unfoldable pub scope_set : List String → List String
unfolding strip
scope_set [] = []
scope_set (scope ∷ rest) =
    let kept = strip scope in if is_empty kept then scope_set rest else kept ∷ scope_set rest

-- `claim and claim != expected`
abbrev pub mismatches : Option String → String → Bool
mismatches none expected = false
mismatches (some claim) expected = not (text_eq claim expected)

abbrev pub is_some {ℓ} : {A : Type ℓ} → Option A → Bool
is_some none = false
is_some (some a) = true

-- `self._subject and subject != self._subject`, where the credential has a subject
abbrev pub subject_changed : Option String → Option String → Bool
subject_changed none subject = false
subject_changed (some old) none = true
subject_changed (some old) (some new) = not (text_eq new old)

abbrev pub no_items : List String → Bool
no_items [] = true
no_items (x ∷ xs) = false

-- `self._scopes is not None and scopes != self._scopes`
abbrev pub scopes_changed : Option (List String) → List String → Bool
scopes_changed none scopes = false
scopes_changed (some old) scopes = not (same_set scopes old)

-- The tests of `check` in its order, each group with the error that it raises.
unfoldable pub header_refusal : Credential → Option DeixicError
unfolding strip has_control is_http_token authentication_error
header_refusal c =
    if is_empty (strip c.access_token)
    then some (authentication_error "credential provider returned an empty access token")
    else if not (text_eq c.access_token (strip c.access_token)) || has_control c.access_token
    then some (authentication_error "credential provider returned an invalid access token")
    else if not (text_eq (strip c.token_type) c.token_type)
        || not (is_http_token (strip c.token_type))
    then some (authentication_error "credential provider returned an invalid token type")
    else none

unfoldable pub tenant_refusal : Identity → Option String → Option String → Option DeixicError
unfolding authentication_error
tenant_refusal i organization_id workspace_id =
    if mismatches organization_id i.organization_id
    then some (authentication_error "credential organization_id does not match the client scope")
    else if mismatches workspace_id i.workspace_id
    then some (authentication_error "credential workspace_id does not match the client scope")
    else if i.declared_organization && not (is_some organization_id)
    then some (authentication_error "credential refresh removed its declared organization_id")
    else if i.declared_workspace && not (is_some workspace_id)
    then some (authentication_error "credential refresh removed its declared workspace_id")
    else none

unfoldable pub principal_refusal : Identity → Option String → List String → Option DeixicError
unfolding same_set authentication_error
principal_refusal i subject scopes =
    if is_some i.subject && not (is_some subject)
    then some (authentication_error "credential refresh removed the authenticated subject")
    else if subject_changed i.subject subject
    then some (authentication_error "credential refresh changed the authenticated subject")
    else if is_some i.scopes && no_items scopes
    then some (authentication_error "credential refresh removed its declared OAuth scopes")
    else if scopes_changed i.scopes scopes
    then some (authentication_error "credential refresh changed its declared OAuth scopes")
    else none

abbrev or_else : Option DeixicError → Option DeixicError → Option DeixicError
or_else (some e) later = some e
or_else none later = later

-- The error of the first claim that `check` refuses, none where it accepts the credential.
unfoldable pub refusal : Identity → Credential → Option DeixicError
refusal i c = or_else (header_refusal c) (
    or_else (tenant_refusal i (clean c.organization_id) (clean c.workspace_id))
      (principal_refusal i (clean c.subject) (scope_set c.scopes)))

-- `if scopes and self._scopes is None: self._scopes = scopes`
abbrev pub kept_scopes : Option (List String) → List String → Option (List String)
kept_scopes (some old) scopes = some old
kept_scopes none [] = none
kept_scopes none (x ∷ xs) = some (x ∷ xs)

-- `if subject: self._subject = subject`
abbrev pub kept_subject : Option String → Option String → Option String
kept_subject old none = old
kept_subject old (some new) = some new

-- The assignments behind the tests of `check`.
unfoldable pub commit : Credential → Identity → Identity
commit c i = record i {
  declared_organization = i.declared_organization || is_some (clean c.organization_id);
  declared_workspace = i.declared_workspace || is_some (clean c.workspace_id);
  subject = kept_subject i.subject (clean c.subject);
  scopes = kept_scopes i.scopes (scope_set c.scopes);
}

-- `CredentialIdentity.check`
unfoldable pub check : Credential → Identity → Result DeixicError Credential × Identity
check c i = elim (refusal i c) [ some e ↦ (err e, i) | none ↦ (ok c, commit c i) ]

pub check-accepts :
    (c d : Credential) (i j : Identity)
    → check c i ≡ (ok d, j)
    → (d ≡ c) × (refusal i c ≡ none) × (j ≡ commit c i)
unfolding check
check-accepts c d i j h = ground arith

pub check-ok : (c : Credential) (i : Identity) → refusal i c ≡ none → check c i ≡ (ok c, commit c i)
unfolding check
check-ok c i h = rw (h, check)

pub check-err :
    (c : Credential) (i : Identity) (e : DeixicError)
    → refusal i c ≡ some e
    → check c i ≡ (err e, i)
unfolding check
check-err c i e h = rw (h, check)

abbrev pub same_subject : Option String → Option String → Bool
same_subject none new = false
same_subject (some old) none = false
same_subject (some old) (some new) = text_eq new old

-- `CredentialIdentity.check_refresh`
unfoldable pub check_refresh :
    Credential → Credential → Identity → Result DeixicError Credential × Identity
check_refresh current refreshed i =
    if same_subject (clean current.subject) (clean refreshed.subject) then check refreshed i else (
      err (
          authentication_error "credential refresh requires the same stable subject before replay"),
      i,
    )
